-- ===== src/Text/Base64/Bounds.antt =====
-- The sizes of the buffers that base64_encode and base64_decode write to.
use libpeco.Base.{
  ℕ, ◌+◌, ◌*◌, ◌/◌, ◌%◌, ◌≤◌, ◌<◌, [], ◌∷◌, ◌++◌, ◌≡◌, refl, arith, ◌∙◌, Bytes, length,
  length-append, length-take-le, ◌==◌, Bool-cases, inl, inr,
}
use libpeco.Text.Base64.{
  Accumulated, start, store, decoded, emitted, byte0, byte1, encode_loop, decode_loop, left_over,
  base64_encode, base64_decode, encode_buffer_size, decode_buffer_size,
}
use libpeco.Text.Base64.RoundTrip.{base64_encode-encode_loop}

length-encode_loop : (s : Bytes) → length (encode_loop s) ≡ (length s + 2) / 3 * 4
unfolding encode_loop
length-encode_loop [] = omega arith
length-encode_loop (a ∷ []) = omega arith
length-encode_loop (a ∷ b ∷ []) = omega arith
length-encode_loop (a ∷ b ∷ c ∷ s) = omega (arith, length-encode_loop s)

-- The encoded text has four bytes for each group of three, and fits the buffer of the source.
pub length-base64_encode :
    (s : Bytes)
    → (length (base64_encode s) ≡ (length s + 2) / 3 * 4)
      × (length (base64_encode s) ≤ encode_buffer_size (length s))
unfolding encode_buffer_size
length-base64_encode s =
    rw (base64_encode-encode_loop s) (length-encode_loop s, omega (arith, length-encode_loop s))

-- What the positions written so far weigh, with the indices that wait.
weight : Accumulated → Bytes → ℕ
weight t out = 4 * length out + 3 * t.accumulator

store-accumulator : (t : Accumulated) (v : ℕ) → (store t v).accumulator ≡ t.accumulator
unfolding store
store-accumulator t v = ground arith

length-emitted : (t : Accumulated) → t.accumulator < 3 → length (emitted t) ≡ 0
unfolding emitted
length-emitted t h = ground arith

length-emitted_full : (t : Accumulated) → t.accumulator ≡ 3 → length (emitted t) ≡ 3
unfolding emitted
length-emitted_full t h = ground arith

module _ (t : Accumulated) (out : Bytes) (h : t.accumulator < 4) where
  weight_step :
      weight (record t { accumulator = (t.accumulator + 1) % 4 }) (out ++ emitted t)
      ≤ weight t out + 3
  unfolding weight
  weight_step =
      ground (arith, length-append out (emitted t), length-emitted t, length-emitted_full t)

weight-store : (t : Accumulated) (v : ℕ) (out : Bytes) → weight (store t v) out ≡ weight t out
unfolding weight
weight-store t v out = omega (arith, store-accumulator t v)

weight-start : weight start [] ≡ 0
unfolding weight
weight-start = refl

-- The loop keeps the index in range, the weight below three for each byte read, and whole groups
-- of three in the output.
abbrev Keeps : Accumulated → Bytes → ℕ → Accumulated × Bytes → Type 0
Keeps t out n r =
    (r.0.accumulator < 4)
    × (weight r.0 r.1 ≤ weight t out + 3 * n)
    × (length r.1 % 3 ≡ length out % 3)

whole_groups :
    (t : Accumulated) (out : Bytes)
    → t.accumulator < 4
    → length (out ++ emitted t) % 3 ≡ length out % 3
whole_groups t out h =
    ground (arith, length-append out (emitted t), length-emitted t, length-emitted_full t)

decode_loop-Keeps :
    (s : Bytes) (t : Accumulated) (out : Bytes)
    → t.accumulator < 4
    → Keeps t out (length s) (decode_loop s t out)
unfolding decode_loop
decode_loop-Keeps [] t out h = (h, omega arith, refl)
decode_loop-Keeps (c ∷ s) t out h =
    let u = store t (decoded c) in
    let small : u.accumulator < 4 = omega (arith, store-accumulator t (decoded c)) in
    elim (Bool-cases (decoded c == 99)) [
      | inl skip ↦
          rw skip
            (let rest = decode_loop-Keeps s t out h in (rest.0, omega (arith, rest.1), rest.2))
      | inr keep ↦ rw keep (
          let rest =
            decode_loop-Keeps s (record u { accumulator = (u.accumulator + 1) % 4 })
              (out ++ emitted u) (omega arith) in
          (
            rest.0,
            omega (arith, rest.1, weight_step u out small, weight-store t (decoded c) out),
            rest.2 ∙ whole_groups u out small,
          ))
    ]

left_over-length :
    (t : Accumulated) (out : Bytes)
    → t.accumulator < 4
    → 4 * length (left_over t out) ≤ weight t out
unfolding left_over weight
left_over-length t out h = ground (
  arith,
  length-take-le (length out) (out ++ byte0 t.a0 t.a1 ∷ []),
  length-take-le (length out + 1) (out ++ byte0 t.a0 t.a1 ∷ byte1 t.a1 t.a2 ∷ []),
  length-take-le (length out + 2) (out ++ byte0 t.a0 t.a1 ∷ byte1 t.a1 t.a2 ∷ []),
)

-- Whatever the input, the loop and the two bytes that the left-over data may write behind it stay
-- within the buffer of the source, and the result has at most three bytes for four bytes read.
pub length-base64_decode :
    (s : Bytes)
    → (length (decode_loop s start []).1 + 2 ≤ decode_buffer_size (length s))
      × (4 * length (base64_decode s) ≤ 3 * length s)
unfolding decode_buffer_size base64_decode
length-base64_decode s =
    let (small, fits, whole) = decode_loop-Keeps s start [] (omega arith) in
    let r = decode_loop s start [] in
    (
      unfold weight in omega (arith, fits, whole),
      omega (arith, left_over-length r.0 r.1 small, fits, weight-start),
    )
