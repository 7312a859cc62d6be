-- ===== src/Task/BasicTask/Name.antt =====
-- The name of a task in its buffer of 64 bytes.
use libpeco.Base.{
  ℕ, suc, [], ◌∷◌, ◌++◌, ◌<◌, zero, some, ◌≡◌, ◌≢◌, refl, arith, Bytes, All, length, take, drop,
  set, ltb, Bool-cases, inl, inr, take_all,
}
use libpeco.Task.Types.{Task}
use libpeco.Task.BasicTask.{set_name, get_name, c_string}

-- No byte is the terminator.
abbrev pub IsCString : Bytes → Type 0
IsCString = All (λ c. c ≢ 0)

-- A shorter string, written over the start of a buffer with its terminator.
c_string-set :
    (n buffer : Bytes)
    → IsCString n
    → length n < length buffer
    → c_string (set (n ++ drop (length n) buffer) (length n) 0) ≡ n
unfolding c_string
c_string-set [] [] h k = absurd (omega arith)
c_string-set [] (b ∷ buffer) h k = refl
c_string-set (c ∷ n) [] h k = absurd (omega arith)
c_string-set (c ∷ n) (b ∷ buffer) h k = ground (arith, c_string-set n buffer h.1)

-- A string that fills the buffer.
c_string-take : (k : ℕ) (n : Bytes) → IsCString n → c_string (take k n ++ []) ≡ take k n
unfolding c_string
c_string-take zero n h = refl
c_string-take (suc k) [] h = refl
c_string-take (suc k) (c ∷ n) h = ground (arith, c_string-take k n h.1)

drop_all : (k : ℕ) (s : Bytes) → length s ≡ k → drop k s ≡ []
drop_all zero [] h = refl
drop_all zero (b ∷ s) h = absurd (omega arith)
drop_all (suc k) [] h = refl
drop_all (suc k) (b ∷ s) h = drop_all k s (omega arith)

-- After a C string is set as the name of a task whose buffer has 64 bytes, the name reads as the
-- first 64 bytes of the string.
pub get_name-set_name :
    (n : Bytes) (t : Task)
    → IsCString n
    → length t.name ≡ 64
    → get_name (set_name (some n) t) ≡ take 64 n
unfolding get_name set_name
get_name-set_name n t h k = elim (Bool-cases (ltb 64 (length n))) [
  | inl e ↦ rw (e, drop_all 64 t.name k) (c_string-take 64 n h)
  | inr e ↦ elim (Bool-cases (ltb (length n) 64)) [
    | inl f ↦
        rw (e, f, take_all (length n) n (omega arith), take_all 64 n (ground arith))
          (c_string-set n t.name h (ground arith))
    | inr f ↦
        let full : length n ≡ 64 = ground arith in
        rw (e, f, full, drop_all 64 t.name k) (c_string-take 64 n h)
  ]
]
