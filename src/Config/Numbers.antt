-- ===== src/Config/Numbers.antt =====
-- Durations mean what they say.
