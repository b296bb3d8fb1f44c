-- ===== src/Governor/Pressure.antt =====
-- packages/cc-lhc/src/governor/provider-context.ts: what is read off a usage record, and the
-- pressure of the next request.
pub mod Readings
use Prim.Native.Char.{code}
use Prim.Native.String.{String}
use long_horizon_context.Base.{
  ℕ, ◌+◌, ◌*◌, ◌/◌, ◌-◌, ◌^◌, Bool, true, false, not, ◌&&◌, ◌||◌, Option, none, some, List, [], ◌∷◌,
  ltb, leb, ◌==◌, if◌then◌else◌, str_eq, any, or_else,
}
use long_horizon_context.Base.Int.{ℤ, pos, negsuc}
use long_horizon_context.Governor.{
  Raw, whole, no_whole_number, PostMeasurementEstimate, RawEstimate, ProviderContextTokens,
  ProviderBaseFreshness, none_read, current_sampling, GovernorPressureReceipt,
}

-- `Number.isSafeInteger`
abbrev pub is_safe_integer : ℕ → Bool
is_safe_integer n = leb n 9007199254740991

-- `readNonNegInt`
abbrev pub read_non_neg_int : Raw → Option ℕ
read_non_neg_int no_whole_number = none
read_non_neg_int (whole (negsuc n)) = none
read_non_neg_int (whole (pos n)) = if is_safe_integer n then some n else none

pub record UsageMember : Type 0 where
  pub key : String
  pub value : Raw

-- A usage value: an object with its own members, each key once, or a value that is no object.
pub data UsageValue : Type 0 where
  no_object : UsageValue
  object : List UsageMember → UsageValue

abbrev pub has_own : String → List UsageMember → Bool
has_own key usage = any (λ m. str_eq m.key key) usage

abbrev pub value_of : String → List UsageMember → Raw
value_of key [] = no_whole_number
value_of key (m ∷ usage) =
    let rest = value_of key usage in if str_eq m.key key then m.value else rest

-- `pickField`
abbrev pub pick_field : List UsageMember → List String → Option ℕ
pick_field usage [] = none
pick_field usage (key ∷ keys) =
    let rest = pick_field usage keys in
    if has_own key usage then read_non_neg_int (value_of key usage) else rest

-- `USAGE_KEYS`
abbrev pub input_keys : List String
input_keys = "input_tokens" ∷ "inputTokens" ∷ []

abbrev pub cache_creation_keys : List String
cache_creation_keys = "cache_creation_input_tokens" ∷ "cacheCreationInputTokens" ∷ []

abbrev pub cache_read_keys : List String
cache_read_keys = "cache_read_input_tokens" ∷ "cacheReadInputTokens" ∷ []

abbrev pub has_any_key : List UsageMember → List String → Bool
has_any_key usage keys = any (λ key. has_own key usage) keys

-- A field of the usage that is 0 where it is absent.
abbrev pub optional_field : List UsageMember → List String → Option ℕ
optional_field usage keys = if has_any_key usage keys then pick_field usage keys else some 0

abbrev pub context_of : ℕ → ℕ → ℕ → Option ProviderContextTokens
context_of input creation cache_read =
    let total = input + creation + cache_read in
    if not (is_safe_integer total)
    then none
    else if total == 0
    then none
    else some (record {
      input_tokens = input;
      cache_creation_input_tokens = creation;
      cache_read_input_tokens = cache_read;
      total = total;
    })

-- The returns of null where a field is there and is no count.
abbrev pub context_of_fields : Option ℕ → Option ℕ → Option ℕ → Option ProviderContextTokens
context_of_fields none creation cache_read = none
context_of_fields (some input) none cache_read = none
context_of_fields (some input) (some creation) none = none
context_of_fields (some input) (some creation) (some cache_read) =
    context_of input creation cache_read

-- `providerContextFromUsage`
unfoldable pub provider_context_from_usage : UsageValue → Option ProviderContextTokens
provider_context_from_usage no_object = none
provider_context_from_usage (object usage) =
    if has_any_key usage input_keys
    then context_of_fields (pick_field usage input_keys) (optional_field usage cache_creation_keys)
        (optional_field usage cache_read_keys)
    else none

-- The characters that `trim` removes: white space and line ends.
abbrev is_space : ℕ → Bool
is_space c =
    (leb 9 c && leb c 13)
    || (c == 32)
    || (c == 160)
    || (c == 5760)
    || (leb 8192 c && leb c 8202)
    || (c == 8232)
    || (c == 8233)
    || (c == 8239)
    || (c == 8287)
    || (c == 12288)
    || (c == 65279)

-- `s.trim() === ""`
unfoldable pub is_blank : String → Bool
is_blank String.[] = true
is_blank (String.◌∷◌ c s) = is_space (code c) && is_blank s

abbrev pub default_source : String
default_source = "lhc_token_estimate"

-- The source of a normalized estimate.
abbrev pub source_of : Option String → String
source_of none = default_source
source_of (some source) = if is_blank source then default_source else source

-- `normalizePostMeasurementEstimate`
unfoldable pub normalize_post_measurement_estimate : Option RawEstimate → PostMeasurementEstimate
normalize_post_measurement_estimate none = record { tokens = 0; source = default_source }
normalize_post_measurement_estimate (some estimate) = record {
  tokens = or_else (read_non_neg_int estimate.tokens) 0;
  source = source_of estimate.source;
}

-- A normalized estimate, where a function takes one from outside.
abbrev pub raw_of : PostMeasurementEstimate → RawEstimate
raw_of estimate = record { tokens = whole (pos estimate.tokens); source = some estimate.source }

abbrev pub base_of : Option ProviderContextTokens → ℕ
base_of none = 0
base_of (some context) = context.total

abbrev pub total_of : Option ProviderContextTokens → Option ℕ
total_of none = none
total_of (some context) = some context.total

abbrev freshness_of : Option ProviderContextTokens → ProviderBaseFreshness → ProviderBaseFreshness
freshness_of none freshness = none_read
freshness_of (some _) freshness = freshness

abbrev pub next_pressure : ℕ → ℕ → ℕ
next_pressure base estimate = if is_safe_integer (base + estimate) then base + estimate else base

abbrev pub receipt_of :
    Option ProviderContextTokens
    → PostMeasurementEstimate
    → ℕ
    → ProviderBaseFreshness
    → GovernorPressureReceipt
receipt_of context est upper_trigger freshness =
    let next = next_pressure (base_of context) est.tokens in
    record {
      provider_base_tokens = total_of context;
      provider_base_freshness = freshness_of context freshness;
      estimate_tokens = est.tokens;
      estimate_source = est.source;
      next_request_pressure_tokens = next;
      upper_trigger_tokens = upper_trigger;
      at_or_above_trigger = leb upper_trigger next;
    }

-- `buildPressureReceipt`
unfoldable pub build_pressure_receipt :
    Option ProviderContextTokens
    → Option RawEstimate
    → ℕ
    → ProviderBaseFreshness
    → GovernorPressureReceipt
build_pressure_receipt context estimate upper_trigger freshness =
    receipt_of context (normalize_post_measurement_estimate estimate) upper_trigger freshness

-- `estimateTokensFromCapturedBytes`
unfoldable pub estimate_tokens_from_captured_bytes : Raw → String → PostMeasurementEstimate
estimate_tokens_from_captured_bytes bytes source =
    let tokens = or_else (read_non_neg_int bytes) 0 / 4 in
    record { tokens = if is_safe_integer tokens then tokens else 0; source = source }
