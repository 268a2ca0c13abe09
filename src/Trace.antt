-- ===== src/Trace.antt =====
-- trace.ts: pointers into a record.
pub mod Pointer
