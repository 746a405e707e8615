-- ===== src/Tests/Pipes.antt =====
-- A pipe whose second direction fails.
