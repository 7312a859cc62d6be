-- ===== src/Task.antt =====
-- src/task: the cooperative task engine. A task's code runs between two switches of context; the
-- loop keeps the tasks that wait for a time in an ordered map.
pub mod Types
pub mod TaskList
pub mod BasicTask
pub mod Cache
pub mod Loop
pub mod Api
pub mod Accessors
pub mod Waiting
pub mod StackCache
pub mod Semaphore
pub mod Signal
pub mod LoopCore
pub mod TaskQueue
pub mod Main
mod Samples
