-- ===== src/Promises/Orders.antt =====
-- What a decision that `validateCompactContinuationDecision` (validate.ts) passes says.
use long_horizon_context.Base.{
  ℕ, suc, ◌≡◌, ◌≢◌, ◌⊎◌, inl, inr, ap, ◌&&◌, refl, All, Bool-cases, some, sym, String, Bool, true,
  false, not, List, [], ◌∷◌, ◌++◌, map, arith, decide, subst,
}
use long_horizon_context.Contract.Codes.{OutcomeKind-discrete}
use long_horizon_context.Contract.Effects.{EffectType, EffectType-discrete, type_of}
use long_horizon_context.Contract.Receipt.{Decision, Receipt}
use long_horizon_context.Validation.Issues.{Issue, issue_if}
use long_horizon_context.Validation.ReceiptChecks.{validate_receipt}
use long_horizon_context.Validation.SequenceChecks.{
  includes, later, index_of, same_type, force_checks, turn_id_checks, boundary_checks,
  exclusion_checks, order_checks, install_checks, continuation_checks, sequence_checks,
}
use long_horizon_context.Validation.DecisionChecks.{
  Effects-discrete, States-discrete, agreement_checks, route_checks, validate_decision,
}

left-nil : (xs ys : List Issue) → xs ++ ys ≡ [] → xs ≡ []
left-nil [] ys h = refl
left-nil (x ∷ xs) ys h = cc

right-nil : (xs ys : List Issue) → xs ++ ys ≡ [] → ys ≡ []
right-nil [] ys h = h
right-nil (x ∷ xs) ys h = cc

passed : (b : Bool) (path message : String) → issue_if b path message ≡ [] → b ≡ false
passed false path message h = refl
passed true path message h = cc

-- An effect of type `t` with none of type `u` in front of it.
pub record IsAhead (t u : EffectType) (types : List EffectType) : Type 0 where
  pub front : List EffectType
  pub back : List EffectType
  pub parted : types ≡ front ++ (t ∷ back)
  pub free : All (λ e. e ≢ u) front

-- No effect has type `t`, or none has type `u`, or one of type `t` is ahead of all of type `u`.
abbrev pub IsBefore : EffectType → EffectType → List EffectType → Type 0
IsBefore t u types = All (λ e. e ≢ t) types ⊎ (All (λ e. e ≢ u) types ⊎ IsAhead t u types)

same_type-path : (t u : EffectType) → same_type t u ≡ true → t ≡ u
unfolding decide
same_type-path t u h =
    elim (EffectType-discrete t u) as (λ e. decide e ≡ true → t ≡ u) [
      | yes p ↦ λ z. p
      | no q ↦ λ z. cc z
    ]
      h

same_type-differ : (t u : EffectType) → same_type t u ≡ false → u ≢ t
unfolding decide
same_type-differ t u h =
    elim (EffectType-discrete t u) as (λ e. decide e ≡ false → u ≢ t) [
      | yes p ↦ λ z. cc z
      | no q ↦ λ z e. q (sym e)
    ]
      h

absent :
    (t : EffectType) (types : List EffectType) → includes t types ≡ false → All (λ e. e ≢ t) types
unfolding includes
absent t [] h = tt
absent t (x ∷ types) h =
    (same_type-differ t x (ground (arith, h)), absent t types (ground (arith, h)))

includes-index :
    (t : EffectType) (types : List EffectType)
    → includes t types ≡ true
    → (i : ℕ) × (index_of t types ≡ some i)
unfolding includes index_of
includes-index t [] h = cc h
includes-index t (x ∷ types) h = elim (Bool-cases (same_type t x)) [
  | inl e ↦ (0, rw e refl)
  | inr e ↦ let rest = includes-index t types (rw e at h) in (suc rest.0, rw (e, rest.1) refl)
]

IsAhead-cons :
    (t u x : EffectType) (types : List EffectType)
    → x ≢ u
    → IsAhead t u types
    → IsAhead t u (x ∷ types)
IsAhead-cons t u x types n h = record {
  front = x ∷ h.front;
  back = h.back;
  parted = ap (◌∷◌ x) h.parted;
  free = (n, h.free);
}

later-IsAhead :
    (t u : EffectType) (types : List EffectType)
    → includes t types ≡ true
    → later t u types ≡ false
    → IsAhead t u types
unfolding includes index_of
later-IsAhead t u [] h l = cc h
later-IsAhead t u (x ∷ types) h l = elim (Bool-cases (same_type t x)) [
  | inl e ↦ record {
    front = [];
    back = types;
    parted = ap (λ y. y ∷ types) (sym (same_type-path t x e));
    free = tt;
  }
  | inr e ↦
      let (i, f) = includes-index t types (rw e at h) in
      elim (Bool-cases (same_type u x)) [
        | inl g ↦ absurd (ground (arith, l, e, f, g))
        | inr g ↦
            IsAhead-cons t u x types (same_type-differ u x g)
              (later-IsAhead t u types (rw e at h) (ground (arith, l, e, f, g)))
      ]
]

checked-IsBefore :
    (t u : EffectType) (types : List EffectType)
    → (includes t types && includes u types && later t u types) ≡ false
    → IsBefore t u types
checked-IsBefore t u types h = elim (Bool-cases (includes t types)) [
  | inr e ↦ inl (absent t types e)
  | inl e ↦ elim (Bool-cases (includes u types)) [
    | inr f ↦ inr (inl (absent u types f))
    | inl f ↦ inr (inr (later-IsAhead t u types e (rw (e, f) at h)))
  ]
]

pub record IsOrdered (types : List EffectType) : Type 0 where
  pub claim_release : IsBefore EffectType.claim_writer EffectType.release_writer types
  pub force_compact : IsBefore EffectType.force_turn_end EffectType.compact types
  pub compact_install : IsBefore EffectType.compact EffectType.install_serving_view types
  pub compact_degrade : IsBefore EffectType.compact EffectType.degrade_fidelity types
  pub degrade_install : IsBefore EffectType.degrade_fidelity EffectType.install_serving_view types

order_checks-IsOrdered :
    (types : List EffectType) (r : Receipt) → order_checks types r ≡ [] → IsOrdered types
unfolding order_checks
order_checks-IsOrdered types r h = record {
  claim_release = checked-IsBefore _ _ types (ground (arith, h));
  force_compact = checked-IsBefore _ _ types (ground (arith, h));
  compact_install = checked-IsBefore _ _ types (ground (arith, h));
  compact_degrade = checked-IsBefore _ _ types (ground (arith, h));
  degrade_install = checked-IsBefore _ _ types (ground (arith, h));
}

-- The receipt and the decision say the same, and the effects stand in their order.
pub record IsCoherent (d : Decision) : Type 0 where
  pub outcome : d.outcome ≡ d.receipt.outcome
  pub effects : d.effects ≡ d.receipt.effects
  pub path : d.transition_path ≡ d.receipt.transition_path
  pub order : IsOrdered (map type_of d.effects)

decided : {A : Type 0} (eq : Discrete A) (x y : A) → not (decide (eq x y)) ≡ false → x ≡ y
unfolding decide
decided eq x y h =
    elim (eq x y) as (λ e. not (decide e) ≡ false → x ≡ y) [ yes p ↦ λ z. p | no q ↦ λ z. cc z ] h

receipt-sequence : (r : Receipt) → validate_receipt r ≡ [] → sequence_checks r ≡ []
unfolding validate_receipt
receipt-sequence r h = right-nil _ (sequence_checks r) h

sequence-order :
    (r : Receipt) → sequence_checks r ≡ [] → order_checks (map type_of r.effects) r ≡ []
unfolding sequence_checks
sequence-order r h =
    let types = map type_of r.effects in
    ordered (force_checks types r) (turn_id_checks r.effects) (boundary_checks r)
      (exclusion_checks types) (order_checks types r) (install_checks types r)
      (continuation_checks types r) h
  where
    ordered : (z a b c d e f : List Issue) → z ++ a ++ b ++ c ++ d ++ e ++ f ≡ [] → d ≡ []
    ordered z a b c d e f h =
        right-nil (z ++ a ++ b ++ c) d
          (left-nil (z ++ a ++ b ++ c ++ d) e (left-nil (z ++ a ++ b ++ c ++ d ++ e) f h))

agrees-outcome :
    (d : Decision)
    → agreement_checks d ≡ []
    → not (decide (OutcomeKind-discrete d.outcome d.receipt.outcome)) ≡ false
unfolding agreement_checks
agrees-outcome d h = ground (arith, h)

agrees-effects :
    (d : Decision)
    → agreement_checks d ≡ []
    → not (decide (Effects-discrete d.effects d.receipt.effects)) ≡ false
unfolding agreement_checks
agrees-effects d h = ground (arith, h)

agrees-path :
    (d : Decision)
    → agreement_checks d ≡ []
    → not (decide (States-discrete d.transition_path d.receipt.transition_path)) ≡ false
unfolding agreement_checks
agrees-path d h = ground (arith, h)

-- A decision without issues agrees with its receipt, and its effects are in order: of the claim and
-- the release of the writer, where both occur, a claim is ahead of every release, and likewise a
-- forced turn end ahead of every compact, a compact ahead of every degradation of fidelity and of
-- every install, and a degradation ahead of every install.
pub validate_decision-IsCoherent : (d : Decision) → validate_decision d ≡ [] → IsCoherent d
unfolding validate_decision
validate_decision-IsCoherent d h =
    let parts = left-nil (validate_receipt d.receipt ++ agreement_checks d) (route_checks d) h in
    let agreement = right-nil (validate_receipt d.receipt) (agreement_checks d) parts in
    let effects : d.effects ≡ d.receipt.effects =
      decided Effects-discrete d.effects d.receipt.effects (agrees-effects d agreement) in
    record {
      outcome =
          decided OutcomeKind-discrete d.outcome d.receipt.outcome (agrees-outcome d agreement);
      effects = effects;
      path =
          decided States-discrete d.transition_path d.receipt.transition_path
            (agrees-path d agreement);
      order =
          subst (λ l. IsOrdered (map type_of l)) (sym effects)
            (order_checks-IsOrdered (map type_of d.receipt.effects) d.receipt (
              sequence-order d.receipt (
                receipt-sequence d.receipt
                  (left-nil (validate_receipt d.receipt) (agreement_checks d) parts))));
    }
