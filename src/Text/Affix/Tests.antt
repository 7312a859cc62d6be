-- ===== src/Text/Affix/Tests.antt =====
-- A start and an end at concrete strings.
