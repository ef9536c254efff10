-- ===== src/Modes/Tests.antt =====
-- The mode bits at concrete modes.
