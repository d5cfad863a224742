-- ===== src/Adapters/Tests.antt =====
-- The checks of an adapter.
