-- ===== src/Text/Url/Tests.antt =====
-- Runs of url_encode and url_decode, and the theorems at a concrete text.
use libpeco.Base.{◌≡◌, refl, arith, codes}
use libpeco.Text.Url.{is_copied, to_hex, url_encode, url_decode}
use libpeco.Text.Url.RoundTrip.{url_decode-url_encode}

encoded_query : url_encode (codes "a b&c=~") ≡ codes "a+b%26c%3D~"
unfolding url_encode is_copied to_hex
encoded_query = refl

-- A cut percent sign ends the loop.
cut_percent : url_decode (codes "ab%4") ≡ codes "ab"
unfolding url_decode
cut_percent = refl

-- Digits beyond F are taken as well: `G` counts 16 and `0` counts 0, and the sum wraps.
beyond_f : url_decode (codes "%G0") ≡ codes "\0"
unfolding url_decode
beyond_f = refl

url_decode-url_encode_example : url_decode (url_encode (codes "a b&c")) ≡ codes "a b&c"
url_decode-url_encode_example = url_decode-url_encode (codes "a b&c") (omega arith)
