-- ===== src/Playground/Partition.antt =====
-- The state of one subscriber: a step of the engine over a record reads and writes that of the
-- record's caller alone.
pub mod Same
pub mod Writes
pub mod Emits
pub mod Steps
pub mod Run
pub mod Possible
