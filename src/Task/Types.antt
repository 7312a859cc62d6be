-- ===== src/Task/Types.antt =====
-- src/task/taskdef.h and src/task/impl/taskcontext.hxx: ids, times, states and the context of a
-- task. An id is an address, an fd is a `long`; -1 is written as its 64-bit pattern. A time is the
-- count of nanoseconds of the steady clock, and does not wrap.
use libpeco.Base.{ℕ, ◌-◌, ◌^◌, Bool, true, false, List, Option, Bytes}

abbrev pub TaskId : Type 0
TaskId = ℕ

abbrev pub Time : Type 0
Time = ℕ

abbrev pub Fd : Type 0
Fd = ℕ

abbrev pub invalidate_task_id : TaskId
invalidate_task_id = 2 ^ 64 - 1

abbrev pub no_fd : Fd
no_fd = 2 ^ 64 - 1

abbrev pub repeat_count_oneshot : ℕ
repeat_count_oneshot = 1

abbrev pub repeat_count_infinitive : ℕ
repeat_count_infinitive = 2 ^ 64 - 1

abbrev pub max_flag_count : ℕ
max_flag_count = 16

abbrev pub task_name_length : ℕ
task_name_length = 64

pub data TaskStatus : Type 0 where
  pending running paused stopped : TaskStatus

pub data WaitingSignal : Type 0 where
  received nothing broken : WaitingSignal

pub data EventType : Type 0 where
  event_read event_write : EventType

abbrev pub status_eq : TaskStatus → TaskStatus → Bool
status_eq TaskStatus.pending TaskStatus.pending = true
status_eq TaskStatus.running TaskStatus.running = true
status_eq TaskStatus.paused TaskStatus.paused = true
status_eq TaskStatus.stopped TaskStatus.stopped = true
status_eq _ _ = false

abbrev pub event_eq : EventType → EventType → Bool
event_eq event_read event_read = true
event_eq event_write event_write = true
event_eq _ _ = false

-- task_context_t and task_extra_t. A worker and an exit function are known by a number; the stack
-- and its saved registers are not part of the state.
pub record Task : Type 0 where
  pub tid : TaskId
  pub worker : ℕ
  pub atexit : Option ℕ
  pub status : TaskStatus
  pub cancelled : Bool
  pub signal : WaitingSignal
  pub repeat_count : ℕ
  pub next_fire_time : Time
  pub interval : ℕ
  pub name : Bytes
  pub arg : ℕ
  pub flags : List ℕ
  pub parent_tid : TaskId
