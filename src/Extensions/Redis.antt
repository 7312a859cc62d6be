-- ===== src/Extensions/Redis.antt =====
-- src/extensions/redis.h and redis.cpp: the commands that are sent, and the replies that are read.
pub mod Command
pub mod Object
pub mod Parse
pub mod Reply
pub mod Bounds
pub mod Sent
pub mod Connect
mod Tests
