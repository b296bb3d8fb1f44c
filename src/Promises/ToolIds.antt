-- ===== src/Promises/ToolIds.antt =====
-- `normalizeProtectedToolCallIds` (contract.ts).
use long_horizon_context.Base.{
  ℕ, ◌≡◌, refl, sym, ap, ◌∙◌, String, Bool, true, false, not, ◌&&◌, ◌||◌, inl, inr, List, [], ◌∷◌,
  arith, is_empty, any, filter, str_eq, eq_iff, Bool-cases,
}
use long_horizon_context.Contract.ToolIds.{
  lt_units, units, lt_text, dedupe, insert, sort, normalize_protected_tool_call_ids,
}

abbrev pub member : String → List String → Bool
member t ids = any (λ s. str_eq s t) ids

str_eq-path : (s t : String) → str_eq s t ≡ true → s ≡ t
str_eq-path s t h = (eq_iff s t).0 h

str_eq_sym : (s t : String) → str_eq s t ≡ false → str_eq t s ≡ false
str_eq_sym s t h = elim (Bool-cases (str_eq t s)) [
  | inl e ↦ cc (h, (eq_iff s t).1 (sym (str_eq-path t s e)))
  | inr e ↦ e
]

filter-member :
    (t : String) (ids : List String)
    → member t (filter (λ id. not (is_empty id)) ids) ≡ (not (is_empty t) && member t ids)
filter-member t [] = ground arith
filter-member t (s ∷ ids) = elim (Bool-cases (str_eq s t)) [
  | inl e ↦ ground (arith, filter-member t ids, e, ap is_empty (str_eq-path s t e))
  | inr e ↦ ground (arith, filter-member t ids, e)
]

dedupe-member :
    (t : String) (seen ids : List String)
    → member t (dedupe seen ids) ≡ (member t ids && not (member t seen))
unfolding dedupe
dedupe-member t seen [] = refl
dedupe-member t seen (s ∷ ids) = elim (Bool-cases (str_eq s t)) [
  | inl e ↦ ground (
    arith,
    dedupe-member t seen ids,
    dedupe-member t (s ∷ seen) ids,
    e,
    ap (λ x. member x seen) (str_eq-path s t e),
  )
  | inr e ↦ ground (arith, dedupe-member t seen ids, dedupe-member t (s ∷ seen) ids, e)
]

insert-member :
    (t s : String) (ids : List String) → member t (insert s ids) ≡ (str_eq s t || member t ids)
unfolding insert
insert-member t s [] = refl
insert-member t s (x ∷ ids) = ground (arith, insert-member t s ids)

sort-member : (t : String) (ids : List String) → member t (sort ids) ≡ member t ids
unfolding sort
sort-member t [] = refl
sort-member t (s ∷ ids) =
    insert-member t s (sort ids) ∙ ap (λ b. str_eq s t || b) (sort-member t ids)

-- No text stands twice in the list.
abbrev pub IsDistinct : List String → Type 0
IsDistinct [] = Unit
IsDistinct (s ∷ ids) = (member s ids ≡ false) × IsDistinct ids

dedupe-IsDistinct : (seen ids : List String) → IsDistinct (dedupe seen ids)
unfolding dedupe
dedupe-IsDistinct seen [] = tt
dedupe-IsDistinct seen (s ∷ ids) = elim (Bool-cases (member s seen)) [
  | inl e ↦ rw e (dedupe-IsDistinct seen ids)
  | inr e ↦ rw e (
    dedupe-member s (s ∷ seen) ids ∙ rw ((eq_iff s s).1 refl) (ground arith),
    dedupe-IsDistinct (s ∷ seen) ids,
  )
]

insert-IsDistinct :
    (s : String) (ids : List String)
    → member s ids ≡ false
    → IsDistinct ids
    → IsDistinct (insert s ids)
unfolding insert
insert-IsDistinct s [] h d = (refl, tt)
insert-IsDistinct s (t ∷ ids) h d = elim (Bool-cases (lt_text s t)) [
  | inl e ↦ rw e (h, d)
  | inr e ↦ rw e (
    insert-member t s ids ∙ ground (arith, str_eq_sym t s, h, d.0),
    insert-IsDistinct s ids (ground (arith, h)) d.1,
  )
]

sort-IsDistinct : (ids : List String) → IsDistinct ids → IsDistinct (sort ids)
unfolding sort
sort-IsDistinct [] d = tt
sort-IsDistinct (s ∷ ids) d =
    insert-IsDistinct s (sort ids) (sort-member s ids ∙ d.0) (sort-IsDistinct ids d.1)

lt_units-asym : (xs ys : List ℕ) → lt_units xs ys ≡ true → lt_units ys xs ≡ false
unfolding lt_units
lt_units-asym [] [] h = refl
lt_units-asym [] (y ∷ ys) h = refl
lt_units-asym (x ∷ xs) [] h = cc
lt_units-asym (x ∷ xs) (y ∷ ys) h = ground (arith, lt_units-asym xs ys)

lt_text-asym : (s t : String) → lt_text s t ≡ true → lt_text t s ≡ false
unfolding lt_text
lt_text-asym s t h = lt_units-asym (units s) (units t) h

-- No element is before its predecessor.
abbrev Follows : String → List String → Type 0
Follows s [] = Unit
Follows s (t ∷ ids) = lt_text t s ≡ false

abbrev pub IsAscending : List String → Type 0
IsAscending [] = Unit
IsAscending (s ∷ ids) = Follows s ids × IsAscending ids

insert-Follows :
    (t s : String) (ids : List String)
    → lt_text s t ≡ false
    → Follows t ids
    → Follows t (insert s ids)
unfolding insert
insert-Follows t s [] h f = h
insert-Follows t s (x ∷ ids) h f = elim (Bool-cases (lt_text s x)) [
  | inl e ↦ rw e h
  | inr e ↦ rw e f
]

insert-IsAscending : (s : String) (ids : List String) → IsAscending ids → IsAscending (insert s ids)
unfolding insert
insert-IsAscending s [] a = (tt, tt)
insert-IsAscending s (t ∷ ids) a = elim (Bool-cases (lt_text s t)) [
  | inl e ↦ rw e (lt_text-asym s t e, a)
  | inr e ↦ rw e (insert-Follows t s ids e a.0, insert-IsAscending s ids a.1)
]

sort-IsAscending : (ids : List String) → IsAscending (sort ids)
unfolding sort
sort-IsAscending [] = tt
sort-IsAscending (s ∷ ids) = insert-IsAscending s (sort ids) (sort-IsAscending ids)

-- The normalized form of a list of tool-call ids.
pub record IsNormalized (ids normal : List String) : Type 0 where
  pub members : (t : String) → member t normal ≡ (not (is_empty t) && member t ids)
  pub distinct : IsDistinct normal
  pub ascending : IsAscending normal

-- Normalizing keeps exactly the non-empty ids, each once, in ascending order of code units.
pub normalize_protected_tool_call_ids-IsNormalized :
    (ids : List String) → IsNormalized ids (normalize_protected_tool_call_ids ids)
unfolding normalize_protected_tool_call_ids
normalize_protected_tool_call_ids-IsNormalized ids =
    let filled = filter (λ id. not (is_empty id)) ids in
    record {
      members = λ t.
          sort-member t (dedupe [] filled)
          ∙ dedupe-member t [] filled
          ∙ ground (arith, filter-member t ids);
      distinct = sort-IsDistinct (dedupe [] filled) (dedupe-IsDistinct [] filled);
      ascending = sort-IsAscending (dedupe [] filled);
    }
