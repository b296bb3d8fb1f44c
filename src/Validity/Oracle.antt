-- ===== src/Validity/Oracle.antt =====
-- `decideCompactContinuation` (decide.ts) against `validateCompactContinuationDecision`
-- (validate.ts).
use long_horizon_context.Base.{
  ◌≡◌, refl, String, Bool, true, false, not, ◌&&◌, ◌||◌, Option, none, some, [], ◌∷◌, ◌++◌,
  is_empty, is_empty-<>, All, All-append, All-if, if◌then◌else◌, decide, str_eq,
}
use long_horizon_context.Contract.{contract_version}
use long_horizon_context.Validity.Unsupported.{unsupported-valid}
use long_horizon_context.Contract.Codes.{State, State-discrete, SkipCode, WriterClaim}
use long_horizon_context.Contract.Input.{
  Input, Invariants, ForcedBoundary, applied, not_applied, OwnershipAuthority, no_live_owner,
  live_owner, WorkContinuation,
}
use long_horizon_context.Contract.Receipt.{Decision}
use long_horizon_context.Decision.Readings.{attempt_index_of, retry_budget_of}
use long_horizon_context.Decision.Exits.{writer_owned_elsewhere, skip}
use long_horizon_context.Decision.Oracle.{
  Gate, boundary_gate, is_none_kind, discarded_gate, untrusted_gate, idle_gate, check_boundary,
  discard_reason, Stage, proceed, owned_elsewhere, contested, owned_reason, reclaim_reason,
  writer_stage, check_writer, health_effects, identity_reason, after_writer, checking_path, at_seam,
  decide_compact_continuation,
}
use long_horizon_context.Validation.EffectChecks.{validate_effect}
use long_horizon_context.Validation.DecisionChecks.{validate_decision}
use long_horizon_context.Validity.Soft.{IsSoft}
use long_horizon_context.Validity.Decisions.{validate_decision-nil}
use long_horizon_context.Validity.Fits.{Fits}
use long_horizon_context.Validity.Routes.{IsPlain}
use long_horizon_context.Validity.Exits.{skip-Passes}
use long_horizon_context.Validity.Quiet.{elsewhere-Passes}
use long_horizon_context.Validity.Installs.{IsFilled}
use long_horizon_context.Validity.Branches.{IsValid, choose_branch-IsValid}

-- What the stages in front of the branch keep: sound effects that the order checks do not read, and
-- the numbers of the input.
record IsGated (gate : Gate) : Type 0 where
  fits : Fits gate.input
  soft : All IsSoft gate.effects

discard_reason-IsFilled : (b : Bool) (c : WorkContinuation) → IsFilled (discard_reason b c)
unfolding discard_reason
discard_reason-IsFilled true c = rw is_empty-<> refl
discard_reason-IsFilled false c = refl

reclaim_reason-IsFilled : (c : WriterClaim) → IsFilled (reclaim_reason c)
unfolding reclaim_reason
reclaim_reason-IsFilled c = rw is_empty-<> refl

owned_reason-IsFilled :
    (a : Option OwnershipAuthority) (c : WriterClaim) → IsFilled (owned_reason a c)
unfolding owned_reason
owned_reason-IsFilled none c = rw is_empty-<> refl
owned_reason-IsFilled (some no_live_owner) c = rw is_empty-<> refl
owned_reason-IsFilled (some live_owner) c = rw is_empty-<> refl

Fits-boundary :
    (input : Input) (b : ForcedBoundary)
    → Fits input
    → Fits (record input { forced_continuation_boundary = b })
unfolding attempt_index_of retry_budget_of
Fits-boundary input b f = record {
  attempt = f.attempt;
  budget = f.budget;
  before = f.before;
  after = f.after;
  point = f.point;
}

Fits-invariants :
    (input : Input) (i : Invariants) → Fits input → Fits (record input { invariants = i })
unfolding attempt_index_of retry_budget_of
Fits-invariants input i f = record {
  attempt = f.attempt;
  budget = f.budget;
  before = f.before;
  after = f.after;
  point = f.point;
}

IsGated-if : (b : Bool) (x y : Gate) → IsGated x → IsGated y → IsGated (if b then x else y)
IsGated-if true x y h k = h
IsGated-if false x y h k = k

check_boundary-IsGated : (input : Input) → Fits input → IsGated (check_boundary input)
unfolding check_boundary validate_effect
check_boundary-IsGated input f = gated input.forced_continuation_boundary
  where
    gated : (b : ForcedBoundary) → IsGated (boundary_gate b input)
    gated not_applied = record { fits = f; soft = tt }
    gated (applied b) =
        let reason = discard_reason-IsFilled (is_none_kind input.continuation) input.continuation in
        IsGated-if (is_none_kind input.continuation || is_empty b.continuation_turn_id)
          (discarded_gate b input)
          (if b.forced_this_seam && b.marker_already_persisted
            then untrusted_gate input
            else idle_gate input)
          (record {
            fits = Fits-boundary input not_applied f;
            soft = ((λ q. rw reason refl, refl), ((reason, refl), tt));
          })
          (IsGated-if (b.forced_this_seam && b.marker_already_persisted) (untrusted_gate input)
            (idle_gate input) (record { fits = f; soft = ((refl, refl), tt) })
            (record { fits = f; soft = tt }))

-- The writer stage keeps what the boundary stage did, or ends with a reason.
IsStaged : Stage → Type 0
IsStaged (proceed gate) = IsGated gate
IsStaged (owned_elsewhere gate reason) = IsGated gate × IsFilled reason

check_writer-IsStaged : (gate : Gate) → IsGated gate → IsStaged (check_writer gate)
unfolding check_writer validate_effect IsStaged
check_writer-IsStaged gate g = staged gate.input.invariants.writer_claim
  where
    contested-native :
        (a : Option OwnershipAuthority) → IsStaged (contested a WriterClaim.native gate)
    contested-native none = (g, owned_reason-IsFilled none WriterClaim.native)
    contested-native (some live_owner) =
        (g, owned_reason-IsFilled (some live_owner) WriterClaim.native)
    contested-native (some no_live_owner) = record {
      fits = Fits-invariants gate.input _ g.fits;
      soft =
          All-append IsSoft gate.effects _ g.soft
            ((λ q. refl, refl), ((reclaim_reason-IsFilled WriterClaim.native, refl), tt));
    }

    contested-conflict :
        (a : Option OwnershipAuthority) → IsStaged (contested a WriterClaim.conflict gate)
    contested-conflict none = (g, owned_reason-IsFilled none WriterClaim.conflict)
    contested-conflict (some live_owner) =
        (g, owned_reason-IsFilled (some live_owner) WriterClaim.conflict)
    contested-conflict (some no_live_owner) = record {
      fits = Fits-invariants gate.input _ g.fits;
      soft =
          All-append IsSoft gate.effects _ g.soft
            ((λ q. refl, refl), ((reclaim_reason-IsFilled WriterClaim.conflict, refl), tt));
    }

    staged : (c : WriterClaim) → IsStaged (writer_stage c gate)
    staged WriterClaim.native = contested-native gate.input.invariants.writer_ownership_authority
    staged WriterClaim.conflict =
        contested-conflict gate.input.invariants.writer_ownership_authority
    staged WriterClaim.none = g
    staged WriterClaim.lhc = g

health-IsSoft : (invariants : Invariants) → All IsSoft (health_effects invariants)
unfolding health_effects identity_reason validate_effect
health-IsSoft invariants =
    All-append IsSoft _ _
      (All-append IsSoft _ _
        (All-if IsSoft (not invariants.capture_complete) (_ ∷ []) [] ((refl, refl), tt) tt)
        (All-if IsSoft (not invariants.provider_identity_valid) (_ ∷ _ ∷ []) []
          ((refl, refl), ((λ q. refl, refl), tt)) tt))
      (All-if IsSoft (not invariants.single_open_turn) (_ ∷ []) [] ((refl, refl), tt) tt)

IsPlain-elsewhere : IsPlain (checking_path ++ State.terminal_continue_current_body ∷ [])
unfolding State-discrete decide
IsPlain-elsewhere = record { no_compact = refl; no_below = refl }

IsPlain-skip : IsPlain (State.idle ∷ State.terminal_skip ∷ [])
unfolding State-discrete decide
IsPlain-skip = record { no_compact = refl; no_below = refl }

after_writer-IsValid : (s : Stage) → IsStaged s → IsValid (after_writer s)
unfolding after_writer IsStaged writer_owned_elsewhere
after_writer-IsValid (proceed gate) g = choose_branch-IsValid gate.input _ g.fits (
    All-append IsSoft gate.effects (health_effects gate.input.invariants) g.soft
      (health-IsSoft gate.input.invariants))
after_writer-IsValid (owned_elsewhere gate reason) g =
    validate_decision-nil gate.input _
      (elsewhere-Passes gate.input checking_path _ reason g.0.fits IsPlain-elsewhere g.0.soft g.1)

skip-valid :
    (input : Input) (code : SkipCode) (reason : String)
    → Fits input
    → validate_decision (skip input (State.idle ∷ []) code reason) ≡ []
unfolding skip
skip-valid input code reason f =
    validate_decision-nil input _ (skip-Passes input (State.idle ∷ []) code reason f IsPlain-skip)

oracle-IsValid : (input : Input) → Fits input → IsValid (decide_compact_continuation input)
unfolding decide_compact_continuation
oracle-IsValid input f =
    valid_some (not (str_eq input.contract_version contract_version)) _ _ (unsupported-valid input)
      (valid_some input.seam.inside_transport_retry _ _ (skip-valid input _ _ f) (
        valid_some (not (at_seam input.seam)) _ _ (skip-valid input _ _ f) (
          after_writer-IsValid _
            (check_writer-IsStaged (check_boundary input) (check_boundary-IsGated input f)))))
  where
    valid_some :
        (b : Bool) (d : Decision) (rest : Option Decision)
        → validate_decision d ≡ []
        → IsValid rest
        → IsValid (if b then some d else rest)
    valid_some true d rest h k = h
    valid_some false d rest h k = k

returned :
    (o : Option Decision) → IsValid o → (d : Decision) × ((o ≡ some d) × (validate_decision d ≡ []))
returned none h = absurd h
returned (some d) h = (d, (refl, h))

-- The oracle decides every input whose numbers are safe integers: it never throws, and the
-- validator of decisions finds no issue in what it returns.
pub decide_compact_continuation-valid :
    (input : Input)
    → Fits input
    → (d : Decision) × ((decide_compact_continuation input ≡ some d) × (validate_decision d ≡ []))
decide_compact_continuation-valid input f = returned _ (oracle-IsValid input f)
