-- ===== src/Text/Base64/Bits.antt =====
-- The bit operations of base64 as arithmetic, by evaluation over all bytes and all indices.
use libpeco.Base.{
  ℕ, ◌+◌, ◌*◌, ◌/◌, ◌%◌, ◌<◌, bit_and, bit_or, ◌≡◌, refl, arith, misses, agree, misses_pairs,
  agree_pairs,
}
use libpeco.Text.Base64.{index0, index1, index2, index3, byte0, byte1, byte2, symbol, decoded}

and_fc_table : misses (λ a. bit_and a 0xfc / 4) (λ a. a / 4) 256 ≡ 0
unfolding misses
and_fc_table = refl

and_03_table : misses (λ a. bit_and a 0x03) (λ a. a % 4) 256 ≡ 0
unfolding misses
and_03_table = refl

and_f0_table : misses (λ a. bit_and a 0xf0 / 16) (λ a. a / 16) 256 ≡ 0
unfolding misses
and_f0_table = refl

and_0f_table : misses (λ a. bit_and a 0x0f) (λ a. a % 16) 256 ≡ 0
unfolding misses
and_0f_table = refl

and_c0_table : misses (λ a. bit_and a 0xc0 / 64) (λ a. a / 64) 256 ≡ 0
unfolding misses
and_c0_table = refl

and_3f_table : misses (λ a. bit_and a 0x3f) (λ a. a % 64) 256 ≡ 0
unfolding misses
and_3f_table = refl

or_16_table : misses_pairs (λ x y. bit_or (x * 16) y) (λ x y. x * 16 + y) 64 16 ≡ 0
unfolding misses_pairs
or_16_table = refl

or_4_table : misses_pairs (λ x y. bit_or (x * 4) y) (λ x y. x * 4 + y) 64 4 ≡ 0
unfolding misses_pairs
or_4_table = refl

or_64_table : misses_pairs (λ x y. bit_or (x * 64) y) (λ x y. x * 64 + y) 64 64 ≡ 0
unfolding misses_pairs
or_64_table = refl

or_16 : (x y : ℕ) → x < 64 → y < 16 → bit_or (x * 16) y ≡ x * 16 + y
or_16 x y hx hy = agree_pairs _ _ 64 16 x y or_16_table hx hy

or_4 : (x y : ℕ) → x < 64 → y < 4 → bit_or (x * 4) y ≡ x * 4 + y
or_4 x y hx hy = agree_pairs _ _ 64 4 x y or_4_table hx hy

or_64 : (x y : ℕ) → x < 64 → y < 64 → bit_or (x * 64) y ≡ x * 64 + y
or_64 x y hx hy = agree_pairs _ _ 64 64 x y or_64_table hx hy

pub and_03 : (a : ℕ) → a < 256 → bit_and a 0x03 ≡ a % 4
and_03 a h = agree _ _ 256 a and_03_table h

pub and_0f : (a : ℕ) → a < 256 → bit_and a 0x0f ≡ a % 16
and_0f a h = agree _ _ 256 a and_0f_table h

pub index0_lem : (a : ℕ) → a < 256 → index0 a ≡ a / 4
unfolding index0
index0_lem a h = agree _ _ 256 a and_fc_table h

pub index1_lem : (a b : ℕ) → a < 256 → b < 256 → index1 a b ≡ a % 4 * 16 + b / 16
unfolding index1
index1_lem a b ha hb =
    rw (and_03 a ha, agree _ _ 256 b and_f0_table hb)
      (or_16 (a % 4) (b / 16) (omega arith) (omega arith))

pub index2_lem : (b c : ℕ) → b < 256 → c < 256 → index2 b c ≡ b % 16 * 4 + c / 64
unfolding index2
index2_lem b c hb hc =
    rw (and_0f b hb, agree _ _ 256 c and_c0_table hc)
      (or_4 (b % 16) (c / 64) (omega arith) (omega arith))

pub index3_lem : (c : ℕ) → c < 256 → index3 c ≡ c % 64
unfolding index3
index3_lem c h = agree _ _ 256 c and_3f_table h

pub byte0_lem : (x y : ℕ) → x < 64 → y < 64 → byte0 x y ≡ x * 4 + y / 16
unfolding byte0
byte0_lem x y hx hy = omega (arith, or_4 x (y / 16) hx (omega arith))

pub byte1_lem : (x y : ℕ) → x < 64 → y < 64 → byte1 x y ≡ (x * 16 + y / 4) % 256
unfolding byte1
byte1_lem x y hx hy = omega (arith, or_16 x (y / 4) hx (omega arith))

pub byte2_lem : (x y : ℕ) → x < 64 → y < 64 → byte2 x y ≡ (x * 64 + y) % 256
unfolding byte2
byte2_lem x y hx hy = omega (arith, or_64 x y hx hy)

symbol_table : misses (λ v. decoded (symbol v)) (λ v. v) 64 ≡ 0
unfolding misses decoded symbol
symbol_table = refl

-- The two dictionaries are inverse to each other.
pub decoded-symbol : (v : ℕ) → v < 64 → decoded (symbol v) ≡ v
decoded-symbol v h = agree _ _ 64 v symbol_table h
