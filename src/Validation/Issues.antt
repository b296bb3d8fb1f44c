-- ===== src/Validation/Issues.antt =====
-- `ValidationIssue` and the tests that validate.ts shares.
use long_horizon_context.Base.{
  ℕ, String, Bool, true, Option, none, some, List, [], ◌∷◌, leb, if◌then◌else◌, any, decide,
}

pub record Issue : Type 0 where
  pub path : String
  pub message : String

-- `if (failed) issues.push(issue(path, message))`
abbrev pub issue_if : Bool → String → String → List Issue
issue_if failed path message = if failed then record { path = path; message = message } ∷ [] else []

-- `Number.MAX_SAFE_INTEGER`
abbrev pub max_safe_integer : ℕ
max_safe_integer = 9007199254740991

abbrev pub is_safe : ℕ → Bool
is_safe n = leb n max_safe_integer

abbrev pub is_null_or_safe : Option ℕ → Bool
is_null_or_safe none = true
is_null_or_safe (some n) = is_safe n

-- `set.has(a)`
abbrev pub has {ℓ} : {A : Type ℓ} → Discrete A → List A → A → Bool
has d xs a = any (λ x. decide (d a x)) xs
