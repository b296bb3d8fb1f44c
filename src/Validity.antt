-- ===== src/Validity.antt =====
-- The oracle of decide.ts against the checks of validate.ts.
pub mod Vocabulary
pub mod EffectLists
pub mod Sequences
pub mod Soft
pub mod Decisions
pub mod Fits
pub mod Routes
pub mod Facts
pub mod Exits
pub mod Quiet
pub mod Shapes
pub mod Assembly
pub mod Installs
pub mod Failures
pub mod Installed
pub mod ContinueTail
pub mod PreserveParts
pub mod PreserveTail
pub mod Branches
pub mod Unsupported
pub mod Oracle
