-- ===== src/Tests/Volumes.antt =====
-- The theorems on the file system of a game partition, at the medium in memory.
