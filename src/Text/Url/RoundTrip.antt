-- ===== src/Text/Url/RoundTrip.antt =====
-- url_decode undoes url_encode.
use libpeco.Base.{
  ℕ, ◌/◌, ◌%◌, ◌<◌, true, [], ◌∷◌, ◌++◌, ◌≡◌, ◌≢◌, refl, arith, ap, ◌∙◌, Bytes, AreBytes, misses,
  agree,
}
use libpeco.Text.Url.{is_copied, to_hex, join_hex, encode_byte, url_encode, url_decode}

-- A byte that is neither a plus nor a percent sign is copied, whatever follows.
pub url_decode_plain :
    (c : ℕ) (s : Bytes) → c ≢ b'+' → c ≢ b'%' → url_decode (c ∷ s) ≡ c ∷ url_decode s
unfolding url_decode
url_decode_plain c [] p q = ground arith
url_decode_plain c (d ∷ []) p q = ground arith
url_decode_plain c (h ∷ l ∷ s) p q = ground arith

pub url_decode_plus : (s : Bytes) → url_decode (b'+' ∷ s) ≡ b' ' ∷ url_decode s
unfolding url_decode
url_decode_plus [] = refl
url_decode_plus (d ∷ []) = refl
url_decode_plus (h ∷ l ∷ s) = refl

url_decode_percent :
    (h l : ℕ) (s : Bytes) → url_decode (b'%' ∷ h ∷ l ∷ s) ≡ join_hex h l ∷ url_decode s
unfolding url_decode
url_decode_percent h l s = refl

is_copied_plain : (c : ℕ) → is_copied c ≡ true → (c ≢ b'+') × (c ≢ b'%')
unfolding is_copied
is_copied_plain c h = ground arith

-- The two digits of a byte, read back.
hex_table : misses (λ c. join_hex (to_hex (c / 16)) (to_hex (c % 16))) (λ c. c) 256 ≡ 0
unfolding misses join_hex to_hex
hex_table = refl

pub join_hex-to_hex : (c : ℕ) → c < 256 → join_hex (to_hex (c / 16)) (to_hex (c % 16)) ≡ c
join_hex-to_hex c h = agree _ _ 256 c hex_table h

url_decode-encode_byte :
    (c : ℕ) (s : Bytes) → c < 256 → url_decode (encode_byte c ++ s) ≡ c ∷ url_decode s
unfolding encode_byte
url_decode-encode_byte c s h = ground (
  arith,
  is_copied_plain c,
  url_decode_plain c s,
  url_decode_plus s,
  url_decode_percent (to_hex (c / 16)) (to_hex (c % 16)) s,
  join_hex-to_hex c,
)

-- Every byte string is read back from its URL form.
pub url_decode-url_encode : (s : Bytes) → AreBytes s → url_decode (url_encode s) ≡ s
unfolding url_encode
url_decode-url_encode [] h = unfold url_decode in refl
url_decode-url_encode (c ∷ s) (hc, hs) =
    url_decode-encode_byte c (url_encode s) hc ∙ ap (◌∷◌ c) (url_decode-url_encode s hs)
