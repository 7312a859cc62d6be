-- ===== src/Text/Base64/Tests.antt =====
-- Runs of base64_encode and base64_decode, and the theorems at a concrete text.
use libpeco.Base.{◌+◌, ◌*◌, ◌≤◌, [], ◌≡◌, refl, arith, codes, length}
use libpeco.Text.Base64.{
  start, symbol, index0, index1, index2, index3, decoded, byte0, byte1, byte2, encode_loop,
  decode_loop, base64_encode, base64_decode, decode_buffer_size,
}
use libpeco.Text.Base64.RoundTrip.{base64_decode-base64_encode}
use libpeco.Text.Base64.Bounds.{length-base64_decode}

encoded_text : base64_encode (codes "libpeco") ≡ codes "bGlicGVjbw=="
unfolding base64_encode encode_loop symbol index0 index1 index2 index3
encoded_text = refl

-- Bytes outside the alphabet are skipped.
skipped_bytes : base64_decode (codes "bG-li cGVj*bw==") ≡ codes "libpeco"
unfolding base64_decode decoded byte0 byte1 byte2
skipped_bytes = refl

base64_decode-base64_encode_example :
    base64_decode (base64_encode (codes "libpeco")) ≡ codes "libpeco"
base64_decode-base64_encode_example = base64_decode-base64_encode (codes "libpeco") (omega arith)

length-base64_decode_example :
    (length (decode_loop (codes "bGli") start []).1 + 2
      ≤ decode_buffer_size (length (codes "bGli")))
    × (4 * length (base64_decode (codes "bGli")) ≤ 3 * length (codes "bGli"))
length-base64_decode_example = length-base64_decode (codes "bGli")
