-- ===== src/Contract/ToolIds.antt =====
-- `normalizeProtectedToolCallIds` and `compactContinuationMarkerIdempotencyKey` (contract.ts).
-- JavaScript compares texts by UTF-16 code units, and so does `lt_text`.
use Prim.Native.Char.{code}
use Prim.Native.String.{String}
use long_horizon_context.Base.{
  ℕ, ◌+◌, ◌-◌, ◌/◌, ◌%◌, Bool, true, false, not, List, [], ◌∷◌, ltb, if◌then◌else◌, str_eq,
  is_empty, any, filter, ◌<>◌,
}

-- The code units of one character: itself, or a surrogate pair.
abbrev char_units : ℕ → List ℕ → List ℕ
char_units c rest =
    if ltb c 0x10000
    then c ∷ rest
    else (0xd800 + (c - 0x10000) / 0x400) ∷ (0xdc00 + (c - 0x10000) % 0x400) ∷ rest

unfoldable pub units : String → List ℕ
units String.[] = []
units (String.◌∷◌ c s) = char_units (code c) (units s)

-- The lexicographic order on code units.
unfoldable pub lt_units : List ℕ → List ℕ → Bool
lt_units [] [] = false
lt_units [] (y ∷ ys) = true
lt_units (x ∷ xs) [] = false
lt_units (x ∷ xs) (y ∷ ys) = if ltb x y then true else if ltb y x then false else lt_units xs ys

-- `s < t`
unfoldable pub lt_text : String → String → Bool
unfolding lt_units units
lt_text s t = lt_units (units s) (units t)

-- `new Set(ids)`, in the order of first insertion; `seen` holds what came before.
unfoldable pub dedupe : List String → List String → List String
dedupe seen [] = []
dedupe seen (s ∷ ids) =
    let again = dedupe seen ids in
    let fresh = s ∷ dedupe (s ∷ seen) ids in if any (λ t. str_eq t s) seen then again else fresh

unfoldable pub insert : String → List String → List String
insert s [] = s ∷ []
insert s (t ∷ ids) = let rest = t ∷ insert s ids in if lt_text s t then s ∷ t ∷ ids else rest

-- `Array.prototype.sort` on texts
unfoldable pub sort : List String → List String
sort [] = []
sort (s ∷ ids) = insert s (sort ids)

unfoldable pub normalize_protected_tool_call_ids : List String → List String
unfolding dedupe insert sort
normalize_protected_tool_call_ids ids = sort (dedupe [] (filter (λ id. not (is_empty id)) ids))

unfoldable pub marker_idempotency_key : String → String
unfolding ◌<>◌
marker_idempotency_key turn_id = "lhc.compact_continuation:" <> turn_id
