-- ===== src/Basic.antt =====
-- src/basic: the containers, the parsers and the path functions.
pub mod LruCache
pub mod FileMgr
pub mod FilterNode
pub mod EventTrigger
pub mod Hexdump
pub mod ArgParser
pub mod Depend
