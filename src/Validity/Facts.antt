-- ===== src/Validity/Facts.antt =====
-- Names that open several definitions at once.
use long_horizon_context.Base.{decide}
use long_horizon_context.Contract.Codes.{ReliefPath-discrete}
use long_horizon_context.Contract.Effects.{EffectType-discrete}
use long_horizon_context.Decision.Parts.{
  residual, applied_boundary_residual_overlay, empty_residual_extras, residual_marker_persisted,
}
use long_horizon_context.Validation.SequenceChecks.{
  includes, index_of, force_checks, boundary_checks, order_checks, install_checks,
  continuation_checks,
}
use long_horizon_context.Validity.Sequences.{skeleton}

-- The residual state of a decision.
unfoldable pub residual_facts : Unit {0}
unfolding residual applied_boundary_residual_overlay empty_residual_extras residual_marker_persisted
    ReliefPath-discrete decide
residual_facts = tt

-- The checks on the order of effects.
unfoldable pub sequence_facts : Unit {0}
unfolding residual_facts force_checks boundary_checks order_checks install_checks
    continuation_checks includes index_of EffectType-discrete decide skeleton
sequence_facts = tt
