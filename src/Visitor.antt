-- ===== src/Visitor.antt =====
-- The device accounts of visitor passes, from src/index.ts: the tables, the functions that queue,
-- withdraw and settle operations on them, and the scheduled sweeps.
pub mod Tables
pub mod Planning
pub mod Accounts
pub mod Sweep
pub mod Tests
