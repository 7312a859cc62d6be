-- ===== src/Extensions/Dns.antt =====
-- The names in the packets of src/extensions/dns.cpp. A pointer into a packet is the list of bytes
-- from there to its end; `none` is a read behind the end.
pub mod Laws
pub mod Packet
pub mod Answer
pub mod Resolver
pub mod Pointers
mod Tests
use libpeco.Base.{
  ℕ, zero, suc, ◌+◌, ◌*◌, ◌/◌, ◌%◌, ◌^◌, bit_and, Bool, true, false, List, [], ◌∷◌, ◌++◌, Option,
  none, some, Bytes, length, take, drop, ltb, ◌==◌, if◌then◌else◌, ◌>>=◌,
}

-- A name, with a dot in front of each label but the first.
abbrev pub add_label : Bytes → Bytes → Bytes
add_label domain l = if ltb 0 (length domain) then domain ++ (b'.' ∷ l) else domain ++ l

-- __get_domain_basic: the name behind what was read of it. Each label takes a byte or more, so the
-- number of bytes, and one, is enough for the rounds.
unfoldable pub get_domain_basic : ℕ → Bytes → Bytes → Option Bytes
get_domain_basic zero d domain = none
get_domain_basic (suc f) [] domain = none
get_domain_basic (suc f) (l ∷ d) domain =
    let rest = get_domain_basic f (drop l d) (add_label domain (take l d)) in
    if l == 0 then some domain else if ltb (length d) l then none else rest

-- What it returns.
abbrev pub domain_size : Bytes → ℕ
domain_size domain = length domain + 2

-- __count_domain_part: how many bytes a name takes that may end in an offset.
unfoldable pub count_domain_part : ℕ → Bytes → ℕ → Option ℕ
count_domain_part zero p rs = none
count_domain_part (suc f) [] rs = none
count_domain_part (suc f) (l ∷ p) rs =
    let rest = count_domain_part f (drop l p) (rs + 1 + l) in
    if bit_and l 0xc0 == 0xc0
    then some (rs + 2)
    else if l == 0
    then some (rs + 1)
    else if ltb (length p) l
    then none
    else rest

-- ntohs of the two bytes that an offset is read from.
abbrev pub word_of : ℕ → ℕ → ℕ
word_of l k = l * 256 + k

-- The offset that the bytes `l` and `k` stand for.
unfoldable pub offset_of : ℕ → ℕ → ℕ
offset_of l k = if bit_and l 0x3f == 0 then bit_and (word_of l k) 0x3fff else bit_and l 0x3f

-- __get_domain, from `p` in the packet `b`.
unfoldable pub get_domain : ℕ → Bytes → Bytes → Bytes → Option Bytes
unfolding offset_of get_domain_basic
get_domain zero b p domain = none
get_domain (suc f) b [] domain = none
get_domain (suc f) b (l ∷ p) domain =
    let rest = get_domain f b (drop l p) (add_label domain (take l p)) in
    if bit_and l 0xc0 == 0xc0
    then elim p [
      | [] ↦ none
      | k ∷ q ↦ do
        r ← get_domain_basic (suc (length b)) (drop (offset_of l k) b) []
        some (domain ++ r)
    ]
    else if l == 0
    then some domain
    else if ltb (length p) l
    then none
    else rest

-- A label behind its length, which has one byte.
abbrev pub label : Bytes → Bytes
label l = (length l % 256) ∷ l

-- The bytes that __set_domain writes; `l` is what was written of a label.
unfoldable pub set_labels : Bytes → Bytes → Bytes
set_labels l [] = label l
set_labels l (c ∷ domain) =
    let next = set_labels [] domain in
    let more = set_labels (l ++ c ∷ []) domain in
    if c == b'.' then (if length domain == 0 then label l else label l ++ next) else more

unfoldable pub set_domain : Bytes → Bytes
unfolding set_labels
set_domain domain = set_labels [] domain ++ 0 ∷ []
