-- ===== src/Task/LoopCore.antt =====
-- src/task/linux/loopcore.cpp: the events that the Linux core caches for each fd. The calls of
-- epoll are listed as they are made; what they answer is an argument. `none` stands for a
-- dereference of `end()`.
pub mod Empty
mod Tests
use libpeco.Base.{
  ℕ, ◌+◌, ◌*◌, bit_and, bit_or, Bool, true, false, ◌&&◌, ◌||◌, not, List, [], ◌∷◌, ◌++◌, Option,
  none, some, ◌==◌, if◌then◌else◌, ◌>>=◌,
}
use libpeco.Task.Types.{Fd, EventType, event_read, event_write}

abbrev pub read_event : ℕ
read_event = 0x01

abbrev pub write_event : ℕ
write_event = 2

-- __MARK_READ__ and its three kin: the source masks where marking would set a bit.
pub mark_read : ℕ → ℕ
mark_read x = bit_and x read_event

pub mark_write : ℕ → ℕ
mark_write x = bit_and x write_event

pub unmark_read : ℕ → ℕ
unmark_read x = bit_and x 0xfe

pub unmark_write : ℕ → ℕ
unmark_write x = bit_and x 0xfd

-- The calls of epoll_ctl: the operation, the fd, and whether it is for EPOLLIN and for EPOLLOUT.
pub data Ctl : Type 0 where
  ctl_add ctl_del : Fd → Bool → Bool → Ctl

-- cached_fd_event_t, with the calls made so far.
pub record Core : Type 0 where
  pub cached : List (Fd × ℕ)
  pub calls : List Ctl

unfoldable pub find_event : Fd → List (Fd × ℕ) → Option ℕ
find_event fd [] = none
find_event fd ((f, m) ∷ c) = if f == fd then some m else find_event fd c

-- `c_it->second = m`
unfoldable pub write_mask : Fd → ℕ → List (Fd × ℕ) → List (Fd × ℕ)
write_mask fd m [] = []
write_mask fd m ((f, k) ∷ c) = if f == fd then (f, m) ∷ c else (f, k) ∷ write_mask fd m c

unfoldable pub erase_event : Fd → List (Fd × ℕ) → List (Fd × ℕ)
erase_event fd [] = []
erase_event fd ((f, k) ∷ c) = if f == fd then c else (f, k) ∷ erase_event fd c

pub has_bit : ℕ → ℕ → Bool
has_bit m b = not (bit_and m b == 0)

ctl : Ctl → Core → Core
ctl k c = record c { calls = c.calls ++ k ∷ [] }

pub init : Core
init = record { cached = []; calls = [] }

-- add_read_event; `answer` is whether the epoll call answers a number above 0.
pub add_read_event : Bool → Fd → Core → Option (Bool × Core)
unfolding has_bit ctl mark_read
add_read_event answer fd c = elim (find_event fd c.cached) [
  | none ↦ none
  | some m ↦
      if has_bit m read_event
      then some (false, c)
      else some (
        answer,
        ctl (ctl_add fd true (has_bit m write_event))
            (record c { cached = write_mask fd (mark_read m) c.cached }),
      )
]

pub add_write_event : Bool → Fd → Core → Option (Bool × Core)
unfolding has_bit ctl mark_write
add_write_event answer fd c = elim (find_event fd c.cached) [
  | none ↦ none
  | some m ↦
      if has_bit m write_event
      then some (false, c)
      else some (
        answer,
        ctl (ctl_add fd (has_bit m read_event) true)
            (record c { cached = write_mask fd (mark_write m) c.cached }),
      )
]

-- The new mask is stored, or the entry goes if no event is left.
store_mask : Fd → ℕ → Core → Core
store_mask fd m c = record c {
  cached = if m == 0 then erase_event fd c.cached else write_mask fd m c.cached;
}

pub del_read_event : Fd → Core → Core
unfolding store_mask ctl unmark_read
del_read_event fd c = elim (find_event fd c.cached) [
  | none ↦ c
  | some m ↦ store_mask fd (unmark_read m) (ctl (ctl_del fd true false) c)
]

pub del_write_event : Fd → Core → Core
unfolding store_mask ctl unmark_write
del_write_event fd c = elim (find_event fd c.cached) [
  | none ↦ c
  | some m ↦ store_mask fd (unmark_write m) (ctl (ctl_del fd false true) c)
]

-- What epoll_wait reports of one fd: an error or hang-up, or the events it is ready for.
pub data Report : Type 0 where
  broken_fd : Report
  ready : Bool → Bool → Report

-- What `wait` does with one report, up to the handlers it calls: the handlers in their order, and
-- the core. `none` stands for the failed assert on a mask that holds another value.
pub data Handled : Type 0 where
  on_error : Fd → Handled
  on_event : Fd → EventType → Handled

-- The mask behind the two handlers.
left_mask : Bool → Bool → ℕ → ℕ
unfolding unmark_read unmark_write
left_mask r w m = let m1 = if r then unmark_read m else m in if w then unmark_write m1 else m1

put_back : Fd → ℕ → Core → Option Core
unfolding ctl
put_back fd m c =
    if m == 0
    then some (record c { cached = erase_event fd c.cached })
    else if m == read_event
    then some (ctl (ctl_add fd true false) (record c { cached = write_mask fd m c.cached }))
    else if m == write_event
    then some (ctl (ctl_add fd false true) (record c { cached = write_mask fd m c.cached }))
    else none

-- The handlers run between the two reads of the mask; they do not reach the core, as main's do not.
pub process : Fd → Report → Core → Option (List Handled × Core)
unfolding ctl left_mask put_back
process fd broken_fd c = some (
  on_error fd ∷ [],
  elim (find_event fd c.cached) [
    | none ↦ c
    | some m ↦ ctl (ctl_del fd false false) (record c { cached = erase_event fd c.cached })
  ],
)
process fd (ready r w) c =
    let handled =
      (if r then on_event fd event_read ∷ [] else [])
      ++ (if w then on_event fd event_write ∷ [] else []) in
    elim (find_event fd c.cached) [
      | none ↦ some (handled, c)
      | some m ↦ put_back fd (left_mask r w m) c >>= λ c'. some (handled, c')
    ]
