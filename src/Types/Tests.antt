-- ===== src/Types/Tests.antt =====
-- The conversions of a chain.
