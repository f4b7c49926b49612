-- ===== src/Backoff/Bounds.antt =====
-- The full delay against its closed form.
