-- ===== src/Backoff/Tests.antt =====
-- Delays at concrete inputs.
