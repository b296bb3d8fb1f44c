-- ===== src/Validation.antt =====
-- packages/lhc/src/shared-tech/compact-continuation/validate.ts: the checks of receipts and
-- decisions. The source reads unknown JSON; here the receipt has its type, so the tests that only
-- ask for a type (`isObject`, `isBool`, `Array.isArray`, `typeof`) hold by construction and are
-- left out, and every test on a value is kept, membership in the listed vocabularies included.
pub mod Issues
pub mod EffectChecks
pub mod ResidualChecks
pub mod ReceiptChecks
pub mod SequenceChecks
pub mod DecisionChecks
