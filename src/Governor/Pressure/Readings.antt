-- ===== src/Governor/Pressure/Readings.antt =====
-- Estimates and usage records, as they are read.
use long_horizon_context.Base.{
  ◌⊎◌, leb, ℕ, ◌+◌, ◌*◌, ◌≤◌, ◌<◌, ◌≡◌, refl, ap₂, String, Bool, true, false, Option, none, some,
  List, if◌then◌else◌, or_else, arith, inl, inr, Bool-cases, ◌↔◌,
}
use long_horizon_context.Base.Int.{pos}
use long_horizon_context.Governor.{
  Raw, whole, PostMeasurementEstimate, RawEstimate, ProviderContextTokens,
}
use long_horizon_context.Governor.Pressure.{
  is_safe_integer, read_non_neg_int, UsageMember, object, pick_field, input_keys,
  cache_creation_keys, cache_read_keys, has_any_key, optional_field, context_of_fields,
  provider_context_from_usage, source_of, is_blank, default_source,
  normalize_post_measurement_estimate, raw_of, estimate_tokens_from_captured_bytes,
}

read_non_neg_int-safe : (raw : Raw) → or_else (read_non_neg_int raw) 0 ≤ 9007199254740991
read_non_neg_int-safe raw = ground arith

read_again : (n : ℕ) → n ≤ 9007199254740991 → or_else (read_non_neg_int (whole (pos n))) 0 ≡ n
read_again n h = ground (arith, h)

pub normalize-safe :
    (estimate : Option RawEstimate)
    → is_safe_integer (normalize_post_measurement_estimate estimate).tokens ≡ true
unfolding normalize_post_measurement_estimate
normalize-safe none = refl
normalize-safe (some estimate) = ground (arith, read_non_neg_int-safe estimate.tokens)

-- A whole number from 0 to the greatest safe one.
abbrev pub is_count : Raw → Bool
is_count raw = elim raw [ whole (pos n) ↦ leb n 9007199254740991 | _ ↦ false ]

-- The tokens are those of a count, and 0 for anything else.
abbrev pub IsTokens : Raw → ℕ → Type 0
IsTokens raw tokens =
    ((raw ≡ whole (pos tokens)) × (tokens ≤ 9007199254740991))
    ⊎ ((is_count raw ≡ false) × (tokens ≡ 0))

-- The source is the text that is given, and the default for one that is absent or blank.
abbrev pub IsSource : Option String → String → Type 0
IsSource none source = source ≡ default_source
IsSource (some given) source =
    ((source ≡ given) × (is_blank given ≡ false))
    ⊎ ((source ≡ default_source) × (is_blank given ≡ true))

abbrev pub IsNormal : Option RawEstimate → PostMeasurementEstimate → Type 0
IsNormal none e = (e.tokens ≡ 0) × (e.source ≡ default_source)
IsNormal (some estimate) e = IsTokens estimate.tokens e.tokens × IsSource estimate.source e.source

read-IsTokens : (raw : Raw) → IsTokens raw (or_else (read_non_neg_int raw) 0)
read-IsTokens raw = ground arith

source_of-IsSource : (source : Option String) → IsSource source (source_of source)
source_of-IsSource none = refl
source_of-IsSource (some t) = elim (Bool-cases (is_blank t)) [
  | inl e ↦ rw e (inr (refl, refl))
  | inr e ↦ rw e (inl (refl, refl))
]

-- A normalized estimate has the tokens of the estimate where they are a safe count, and 0 where they
-- are not, and its source where it is not blank, and the default where it is blank or absent; without
-- an estimate it has 0 and the default.
pub normalize_post_measurement_estimate-IsNormal :
    (estimate : Option RawEstimate)
    → IsNormal estimate (normalize_post_measurement_estimate estimate)
unfolding normalize_post_measurement_estimate
normalize_post_measurement_estimate-IsNormal none = (refl, refl)
normalize_post_measurement_estimate-IsNormal (some estimate) =
    (read-IsTokens estimate.tokens, source_of-IsSource estimate.source)

default_not_blank : is_blank default_source ≡ false
unfolding is_blank
default_not_blank = refl

source_again : (source : Option String) → source_of (some (source_of source)) ≡ source_of source
source_again none = rw default_not_blank refl
source_again (some t) = elim (Bool-cases (is_blank t)) [
  | inl e ↦ rw (e, default_not_blank) refl
  | inr e ↦ rw (e, e) refl
]

-- Normalizing an estimate again changes nothing.
pub normalize_post_measurement_estimate_again :
    (estimate : Option RawEstimate)
    → normalize_post_measurement_estimate
        (some (raw_of (normalize_post_measurement_estimate estimate)))
      ≡ normalize_post_measurement_estimate estimate
unfolding normalize_post_measurement_estimate
normalize_post_measurement_estimate_again none = rw default_not_blank refl
normalize_post_measurement_estimate_again (some estimate) =
    ap₂ {C = PostMeasurementEstimate} (λ tokens source. record { tokens = tokens; source = source })
      (read_again _ (read_non_neg_int-safe estimate.tokens)) (source_again estimate.source)

-- An estimate from a safe number of captured bytes is a quarter of them, rounded down.
pub estimate_tokens_from_captured_bytes_lem :
    (bytes : ℕ) (source : String)
    → is_safe_integer bytes ≡ true
    → let e = estimate_tokens_from_captured_bytes (whole (pos bytes)) source in
      (4 * e.tokens ≤ bytes) × (bytes < 4 * e.tokens + 4)
unfolding estimate_tokens_from_captured_bytes
estimate_tokens_from_captured_bytes_lem bytes source h = ground (arith, h)

-- What the fields of a usage record say of a measured request: each is a count, and the total is
-- safe and not 0.
pub record IsMeasured (has_input : Bool) (input creation cache_read : Option ℕ)
    (c : ProviderContextTokens) : Type 0 where
  pub named : has_input ≡ true
  pub input_read : input ≡ some c.input_tokens
  pub creation_read : creation ≡ some c.cache_creation_input_tokens
  pub cache_read_read : cache_read ≡ some c.cache_read_input_tokens
  pub sum : c.total ≡ c.input_tokens + c.cache_creation_input_tokens + c.cache_read_input_tokens
  pub positive : 0 < c.total
  pub safe : c.total ≤ 9007199254740991

context_of_fields_iff :
    (has_input : Bool) (input creation cache_read : Option ℕ) (c : ProviderContextTokens)
    → ((if has_input then context_of_fields input creation cache_read else none) ≡ some c)
      ↔ IsMeasured has_input input creation cache_read c
context_of_fields_iff has_input input creation cache_read c = ground arith

-- A usage object gives a provider context exactly when it names an input, its three fields, with 0
-- for an absent cache field, are safe counts, and their sum is safe and not 0; the context is then
-- that of the fields.
pub provider_context_from_usage_iff :
    (usage : List UsageMember) (c : ProviderContextTokens)
    → (provider_context_from_usage (object usage) ≡ some c)
      ↔ IsMeasured
          (has_any_key usage input_keys)
          (pick_field usage input_keys)
          (optional_field usage cache_creation_keys)
          (optional_field usage cache_read_keys)
          c
unfolding provider_context_from_usage
provider_context_from_usage_iff usage c =
    context_of_fields_iff (has_any_key usage input_keys) (pick_field usage input_keys)
      (optional_field usage cache_creation_keys) (optional_field usage cache_read_keys) c
