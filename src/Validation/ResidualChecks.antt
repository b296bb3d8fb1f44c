-- ===== src/Validation/ResidualChecks.antt =====
-- `validateResidual` of validate.ts.
use long_horizon_context.Base.{not, ◌&&◌, ◌++◌, List, is_some}
use long_horizon_context.Contract.Codes.{relief_paths, ReliefPath-discrete}
use long_horizon_context.Contract.Receipt.{Residual}
use long_horizon_context.Validation.Issues.{Issue, issue_if, is_null_or_safe, has}

unfoldable pub validate_residual : Residual → List Issue
validate_residual r =
    issue_if (not (has ReliefPath-discrete relief_paths r.relief_path)) "residual.reliefPath"
      "unknown relief path"
    ++ issue_if (not (is_null_or_safe r.visibility_boundary_before))
        "residual.visibilityBoundaryBefore" "must be null or non-negative safe integer"
    ++ issue_if (not (is_null_or_safe r.visibility_boundary_after))
        "residual.visibilityBoundaryAfter" "must be null or non-negative safe integer"
    ++ issue_if (not r.writer_released) "residual.writerReleased"
        "terminal receipts must release the writer"
    ++ issue_if (r.marker_served && not r.marker_persisted) "residual.markerServed"
        "served requires markerPersisted"
    ++ issue_if (r.forced_continuation_boundary_applied && not (is_some r.continuation_turn_id))
        "residual.continuationTurnId" "required when forcedContinuationBoundaryApplied"
