-- ===== src/Text/Base64/RoundTrip.antt =====
-- The round trip of base64_encode and base64_decode.
use libpeco.Base.{
  ℕ, ◌+◌, ◌*◌, ◌/◌, ◌%◌, ◌<◌, bit_and, [], ◌∷◌, ◌++◌, ◌≡◌, refl, sym, arith, ◌∙◌, ap, append_assoc,
  append-nil, Bytes, AreBytes, length, take-append,
}
use libpeco.Text.Base64.Bits.{
  index0_lem, index1_lem, index2_lem, index3_lem, byte0_lem, byte1_lem, byte2_lem, and_03, and_0f,
  decoded-symbol,
}
use libpeco.Text.Base64.{
  Accumulated, index0, index1, index2, index3, byte0, byte1, byte2, symbol, decoded, store, emitted,
  encode_loop, decode_loop, left_over, base64_encode, base64_decode,
}

abbrev at : ℕ → ℕ → ℕ → ℕ → ℕ → Accumulated
at n v0 v1 v2 v3 = record { accumulator = n; a0 = v0; a1 = v1; a2 = v2; a3 = v3 }

-- One index is read, stored and, if it is the fourth, written out with the others.
decode_loop-symbol :
    (v : ℕ) (r : Bytes) (s : Accumulated) (out : Bytes)
    → v < 64
    → decode_loop (symbol v ∷ r) s out
      ≡ decode_loop r
          (record (store s v) { accumulator = ((store s v).accumulator + 1) % 4 })
          (out ++ emitted (store s v))
unfolding decode_loop
decode_loop-symbol v r s out h = rw (decoded-symbol v h) (ground (arith))

decode_loop-pad :
    (r : Bytes) (s : Accumulated) (out : Bytes) → decode_loop (b'=' ∷ r) s out ≡ decode_loop r s out
unfolding decode_loop decoded
decode_loop-pad r s out = refl

module _ (a b c d v : ℕ) (r out : Bytes) (h : v < 64) where
  read0 : decode_loop (symbol v ∷ r) (at 0 a b c d) out ≡ decode_loop r (at 1 v b c d) out
  unfolding store emitted
  read0 = decode_loop-symbol v r (at 0 a b c d) out h ∙ rw append-nil

  read1 : decode_loop (symbol v ∷ r) (at 1 a b c d) out ≡ decode_loop r (at 2 a v c d) out
  unfolding store emitted
  read1 = decode_loop-symbol v r (at 1 a b c d) out h ∙ rw append-nil

  read2 : decode_loop (symbol v ∷ r) (at 2 a b c d) out ≡ decode_loop r (at 3 a b v d) out
  unfolding store emitted
  read2 = decode_loop-symbol v r (at 2 a b c d) out h ∙ rw append-nil

  read3 :
      decode_loop (symbol v ∷ r) (at 3 a b c d) out
      ≡ decode_loop r (at 0 a b c v) (out ++ byte0 a b ∷ byte1 b c ∷ byte2 c v ∷ [])
  unfolding store emitted
  read3 = decode_loop-symbol v r (at 3 a b c d) out h

-- Four indices are read back as three bytes.
quad :
    (a b c d v0 v1 v2 v3 : ℕ) (r out : Bytes)
    → v0 < 64
    → v1 < 64
    → v2 < 64
    → v3 < 64
    → decode_loop (symbol v0 ∷ symbol v1 ∷ symbol v2 ∷ symbol v3 ∷ r) (at 0 a b c d) out
      ≡ decode_loop r (at 0 v0 v1 v2 v3) (out ++ byte0 v0 v1 ∷ byte1 v1 v2 ∷ byte2 v2 v3 ∷ [])
quad a b c d v0 v1 v2 v3 r out h0 h1 h2 h3 =
    read0 a b c d v0 _ out h0
    ∙ read1 v0 b c d v1 _ out h1
    ∙ read2 v0 v1 c d v2 _ out h2
    ∙ read3 v0 v1 v2 d v3 r out h3

module _ (x y z : ℕ) (hx : x < 256) (hy : y < 256) (hz : z < 256) where
  index0-lt : index0 x < 64
  index0-lt = omega (arith, index0_lem x hx)

  index1-lt : index1 x y < 64
  index1-lt = omega (arith, index1_lem x y hx hy)

  index2-lt : index2 x y < 64
  index2-lt = omega (arith, index2_lem x y hx hy)

  index3-lt : index3 x < 64
  index3-lt = omega (arith, index3_lem x hx)

  index1_tail-lt : bit_and x 0x03 * 16 < 64
  index1_tail-lt = omega (arith, and_03 x hx)

  index2_tail-lt : bit_and x 0x0f * 4 < 64
  index2_tail-lt = omega (arith, and_0f x hx)

  byte0-index : byte0 (index0 x) (index1 x y) ≡ x
  byte0-index =
      byte0_lem _ _ index0-lt index1-lt ∙ omega (arith, index0_lem x hx, index1_lem x y hx hy)

  byte0_tail-index : byte0 (index0 x) (bit_and x 0x03 * 16) ≡ x
  byte0_tail-index =
      byte0_lem _ _ index0-lt index1_tail-lt ∙ omega (arith, index0_lem x hx, and_03 x hx)

  byte1-index : (v : ℕ) → v < 64 → v / 4 ≡ y % 16 → byte1 (index1 x y) v ≡ y
  byte1-index v hv e = byte1_lem _ v index1-lt hv ∙ omega (arith, index1_lem x y hx hy)

  byte2-index : byte2 (index2 x y) (index3 y) ≡ y
  byte2-index =
      byte2_lem _ _ index2-lt (omega (arith, index3_lem y hy))
      ∙ omega (arith, index2_lem x y hx hy, index3_lem y hy)

-- What is written behind the last whole quad.
finish : Accumulated × Bytes → Bytes
finish r = left_over r.0 r.1

finish_two : (x y c d : ℕ) (out : Bytes) → finish (at 2 x y c d, out) ≡ out ++ byte0 x y ∷ []
unfolding finish left_over
finish_two x y c d out = take-append (length out + 1) 1 out _ refl

finish_three :
    (x y z d : ℕ) (out : Bytes) → finish (at 3 x y z d, out) ≡ out ++ byte0 x y ∷ byte1 y z ∷ []
unfolding finish left_over
finish_three x y z d out = take-append (length out + 2) 2 out _ refl

decode_loop-nil : (s : Accumulated) (out : Bytes) → decode_loop [] s out ≡ (s, out)
unfolding decode_loop
decode_loop-nil s out = refl

finish-encode_loop :
    (s : Bytes) (a b c d : ℕ) (out : Bytes)
    → AreBytes s
    → finish (decode_loop (encode_loop s) (at 0 a b c d) out) ≡ out ++ s
unfolding encode_loop
finish-encode_loop [] a b c d out h = unfold finish decode_loop left_over in sym (append-nil out)
finish-encode_loop (x ∷ []) a b c d out (hx, _) =
    ap finish (
      read0 a b c d (index0 x) _ out (index0-lt x x x hx hx hx)
      ∙ read1 (index0 x) b c d (bit_and x 0x03 * 16) _ out (index1_tail-lt x x x hx hx hx)
      ∙ decode_loop-pad _ _ out
      ∙ decode_loop-pad _ _ out)
    ∙ rw (decode_loop-nil, finish_two) (rw (byte0_tail-index x x x hx hx hx))
finish-encode_loop (x ∷ y ∷ []) a b c d out (hx, (hy, _)) =
    ap finish (
      read0 a b c d (index0 x) _ out (index0-lt x y y hx hy hy)
      ∙ read1 (index0 x) b c d (index1 x y) _ out (index1-lt x y y hx hy hy)
      ∙ read2 (index0 x) (index1 x y) c d (bit_and y 0x0f * 4) _ out (index2_tail-lt y y y hy hy hy)
      ∙ decode_loop-pad _ _ out)
    ∙ rw (decode_loop-nil, finish_three)
        (rw (
          byte0-index x y y hx hy hy,
          byte1-index x y y hx hy hy (bit_and y 0x0f * 4) (index2_tail-lt y y y hy hy hy)
              (omega (arith, and_0f y hy)),
        ))
finish-encode_loop (x ∷ y ∷ z ∷ s) a b c d out (hx, (hy, (hz, hs))) =
    ap finish (
      quad a b c d _ _ _ _ (encode_loop s) out (index0-lt x y z hx hy hz) (index1-lt x y z hx hy hz)
        (index2-lt y z z hy hz hz) (index3-lt z z z hz hz hz))
    ∙ finish-encode_loop s _ _ _ _ _ hs
    ∙ rw (
      byte0-index x y z hx hy hz,
      byte1-index x y z hx hy hz (index2 y z) (index2-lt y z z hy hz hz)
          (omega (arith, index2_lem y z hy hz)),
      byte2-index y z z hy hz hz,
      append_assoc,
    )

-- The loop writes at least four bytes, unless the input is empty.
pub base64_encode-encode_loop : (s : Bytes) → base64_encode s ≡ encode_loop s
unfolding base64_encode encode_loop
base64_encode-encode_loop [] = refl
base64_encode-encode_loop (x ∷ []) = refl
base64_encode-encode_loop (x ∷ y ∷ []) = refl
base64_encode-encode_loop (x ∷ y ∷ z ∷ s) = ground arith

-- Every byte string is read back from its base64 form.
pub base64_decode-base64_encode : (s : Bytes) → AreBytes s → base64_decode (base64_encode s) ≡ s
unfolding base64_decode
base64_decode-base64_encode s h =
    rw (base64_encode-encode_loop s) (unfold finish in finish-encode_loop s 0 0 0 0 [] h)
