-- ===== src/Decision.antt =====
-- packages/lhc/src/shared-tech/compact-continuation/decide.ts: the pure oracle that classifies one
-- seam. The children follow the file from top to bottom.
pub mod Readings
pub mod Parts
pub mod Effects
pub mod Exits
pub mod Tail
pub mod Oracle
