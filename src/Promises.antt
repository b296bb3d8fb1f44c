-- ===== src/Promises.antt =====
-- What the oracle of decide.ts and the validator of validate.ts promise beyond their agreement.
pub mod Writer
pub mod Claims
pub mod Cases
pub mod Requests
pub mod ToolIds
pub mod Orders
pub mod Retries
pub mod Retried
pub mod Compacts
pub mod Due
pub mod Decides
pub mod Accounts
pub mod Discards
pub mod Fresh
