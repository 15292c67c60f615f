-- ===== src/Types/InfoHash/Tests.antt =====
-- Instances of the theorems on info hashes.
