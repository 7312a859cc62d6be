-- ===== src/Text/Affix/Laws.antt =====
-- A start and an end that are put before or behind a string are found and removed.
use libpeco.Base.{
  ◌-◌, true, [], ◌∷◌, ◌++◌, ◌≡◌, refl, arith, Bytes, length, drop, leb, if◌then◌else◌,
  length-append, take_append, drop_append,
}
use libpeco.Text.Affix.{
  same_bytes, is_string_start, check_string_start_and_remove, is_string_end,
  check_string_end_and_remove,
}

same_bytes-append : (p s : Bytes) → same_bytes (p ++ s) p ≡ true
unfolding same_bytes
same_bytes-append [] s = refl
same_bytes-append (c ∷ p) s = ground (arith, same_bytes-append p s)

same_bytes_self : (p : Bytes) → same_bytes p p ≡ true
unfolding same_bytes
same_bytes_self [] = refl
same_bytes_self (c ∷ p) = ground (arith, same_bytes_self p)

same_bytes-drop : (s p : Bytes) → same_bytes s p ≡ true → p ++ drop (length p) s ≡ s
unfolding same_bytes
same_bytes-drop s [] h = refl
same_bytes-drop [] (d ∷ p) h = absurd (cc)
same_bytes-drop (c ∷ s) (d ∷ p) h = ground (arith, same_bytes-drop s p)

pub start-append : (p s : Bytes) → is_string_start (p ++ s) p ≡ true
unfolding is_string_start
start-append p s =
    let long : leb (length p) (length (p ++ s)) ≡ true = ground (arith, length-append p s) in
    rw long (same_bytes-append p s)

end-append : (s p : Bytes) → is_string_end (s ++ p) p ≡ true
unfolding is_string_end
end-append s p =
    let long : leb (length p) (length (s ++ p)) ≡ true = ground (arith, length-append s p) in
    let cut : length (s ++ p) - length p ≡ length s = omega (arith, length-append s p) in
    rw (long, cut, drop_append s p) (same_bytes_self p)

-- A string `p` that is put before or behind a string `s` is found at the start or at the end, and
-- removing it gives `s`.
pub check_string-append :
    (s p : Bytes)
    → (is_string_start (p ++ s) p ≡ true)
      × (check_string_start_and_remove (p ++ s) p ≡ s)
      × (is_string_end (s ++ p) p ≡ true)
      × (check_string_end_and_remove (s ++ p) p ≡ s)
unfolding check_string_start_and_remove check_string_end_and_remove
check_string-append s p =
    let cut : length (s ++ p) - length p ≡ length s = omega (arith, length-append s p) in
    (
      start-append p s,
      rw (start-append p s) (drop_append p s),
      end-append s p,
      rw (end-append s p, cut) (take_append s p),
    )

-- If a string starts with `p`, then it is `p` with what is left when `p` is removed; otherwise
-- removing changes nothing.
pub check_string_start-append :
    (s p : Bytes)
    → (if is_string_start s p
        then p ++ check_string_start_and_remove s p
        else check_string_start_and_remove s p)
      ≡ s
unfolding check_string_start_and_remove is_string_start
check_string_start-append s p = ground (arith, same_bytes-drop s p)
