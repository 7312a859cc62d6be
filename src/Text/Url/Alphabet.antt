-- ===== src/Text/Url/Alphabet.antt =====
-- What url_encode writes: no space, no control byte, nothing beyond ASCII.
use libpeco.Base.{
  ℕ, ◌/◌, ◌%◌, ◌<◌, true, [], ◌∷◌, ◌≡◌, ◌⊎◌, arith, Bytes, AreBytes, All, All-append,
}
use libpeco.Text.Url.{is_copied, to_hex, encode_byte, url_encode}

-- A byte that may stand in a form: one that is copied, a plus sign or a percent sign.
abbrev pub IsFormByte : ℕ → Type 0
IsFormByte c = (is_copied c ≡ true) ⊎ (c ≡ b'+') ⊎ (c ≡ b'%')

to_hex_copied : (x : ℕ) → x < 16 → is_copied (to_hex x) ≡ true
unfolding is_copied to_hex
to_hex_copied x h = ground arith

encode_byte-IsFormByte : (c : ℕ) → c < 256 → All IsFormByte (encode_byte c)
unfolding encode_byte
encode_byte-IsFormByte c h = ground (arith, to_hex_copied (c / 16), to_hex_copied (c % 16))

-- Every byte of an encoded text is a letter, a digit, one of `-_.~`, a plus or a percent sign.
pub url_encode-IsFormByte : (s : Bytes) → AreBytes s → All IsFormByte (url_encode s)
unfolding url_encode
url_encode-IsFormByte [] h = tt
url_encode-IsFormByte (c ∷ s) (hc, hs) =
    All-append IsFormByte (encode_byte c) (url_encode s) (encode_byte-IsFormByte c hc)
      (url_encode-IsFormByte s hs)
