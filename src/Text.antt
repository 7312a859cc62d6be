-- ===== src/Text.antt =====
-- src/basic/stringutil.cpp and src/basic/stringutil.h: helpers on byte strings. A std::string is
-- the list of its bytes, each below 256.
pub mod Trim
pub mod Split
pub mod Url
pub mod Base64
pub mod Affix
pub mod Number
