-- ===== src/Base/Octets.antt =====
-- Bytes as numbers, the bytes of a text literal, and checks of a small range by evaluation.
use Prim.Native.Nat.{ℕ, zero, suc, ◌+◌, ◌<◌}
use Prim.Native.Char.{code}
use Prim.Native.String.{String}
use mathlib.Core.Path.{◌≡◌}
use mathlib.Core.Logic.{◌≢◌}
use mathlib.Core.Bool.{Bool, true, false}
use mathlib.Core.List.{List, [], ◌∷◌}
use mathlib.Core.Option.{Option, none, some}
use native.Mathlib.Omega.{arith}
use libpeco.Base.Lists.{All}
use libpeco.Base.Tests.{◌==◌, if◌then◌else◌}

abbrev pub Bytes : Type 0
Bytes = List ℕ

-- Equality of two texts, as std::string has it.
abbrev pub same_string : Bytes → Bytes → Bool
same_string [] [] = true
same_string [] (y ∷ t) = false
same_string (x ∷ s) [] = false
same_string (x ∷ s) (y ∷ t) = if x == y then same_string s t else false

abbrev pub AreBytes : Bytes → Type 0
AreBytes = All (λ c. c < 256)

abbrev pub codes : String → Bytes
codes String.[] = []
codes (String.◌∷◌ c s) = code c ∷ codes s

-- At how many arguments below `k` two functions differ.
unfoldable pub misses : (ℕ → ℕ) → (ℕ → ℕ) → ℕ → ℕ
misses f g zero = 0
misses f g (suc k) = (if f k == g k then 0 else 1) + misses f g k

pub agree : (f g : ℕ → ℕ) (k x : ℕ) → misses f g k ≡ 0 → x < k → f x ≡ g x
unfolding misses
agree f g zero x same h = absurd (omega arith)
agree f g (suc k) x same h = ground (arith, agree f g k x)

-- The same for two arguments, the first below `n` and the second below `k`.
unfoldable pub misses_pairs : (ℕ → ℕ → ℕ) → (ℕ → ℕ → ℕ) → ℕ → ℕ → ℕ
unfolding misses
misses_pairs f g zero k = 0
misses_pairs f g (suc n) k = misses (f n) (g n) k + misses_pairs f g n k

pub agree_pairs :
    (f g : ℕ → ℕ → ℕ) (n k x y : ℕ) → misses_pairs f g n k ≡ 0 → x < n → y < k → f x y ≡ g x y
unfolding misses_pairs
agree_pairs f g zero k x y same hx hy = absurd (omega arith)
agree_pairs f g (suc n) k x y same hx hy =
    ground (arith, agree_pairs f g n k x y, agree (f n) (g n) k y)

-- Whether a byte does not occur.
abbrev pub avoids : ℕ → Bytes → Bool
avoids b [] = true
avoids b (c ∷ s) = if c == b then false else avoids b s

pub avoids-All : (b : ℕ) (s : Bytes) → avoids b s ≡ true → All (λ c. c ≢ b) s
avoids-All b [] h = tt
avoids-All b (c ∷ s) h = (λ e. ground (arith, h, e), avoids-All b s (ground (arith, h)))

-- rfind of a byte, with what is before and behind.
unfoldable pub cut_last : ℕ → Bytes → Option (Bytes × Bytes)
cut_last b [] = none
cut_last b (c ∷ s) = elim (cut_last b s) [
  | some q ↦ some (c ∷ q.0, q.1)
  | none ↦ if c == b then some ([], s) else none
]
