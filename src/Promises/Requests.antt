-- ===== src/Promises/Requests.antt =====
-- The next provider request, the writer and refusals in the decisions of decide.ts.
use long_horizon_context.Base.{◌≡◌, true, false, not, ◌&&◌, ◌||◌, none, some}
use long_horizon_context.Contract.Input.{Input}
use long_horizon_context.Contract.Receipt.{Decision, Residual}
use long_horizon_context.Promises.Writer.{writer_run}
use long_horizon_context.Decision.Parts.{
  decide as build, residual, applied_boundary_residual_overlay, empty_residual_extras,
}
use long_horizon_context.Decision.Exits.{
  decline_to_ordinary, decline_unsupported_version, writer_owned_elsewhere, skip, continue_normal,
  normal_complete, decline_to_ordinary_parts, writer_owned_elsewhere_parts, skip_parts,
  continue_normal_parts, normal_complete_parts,
}
use long_horizon_context.Decision.Tail.{
  attempt_failed_after_preserve, attempt_failed_after_preserve_parts, attempt_failed_after_continue,
  attempt_failed_after_continue_parts, installed, installed_parts, is_awaiting,
}

-- The next provider request is withheld exactly by a skip and by an installed view that awaits the
-- host's validation; the effects claim the writer only where it is not held, release it only where it
-- is, and end without it, as the residual state says; nothing is refused.
pub record IsReleasing (d : Decision) : Type 0 where
  pub withheld : not d.receipt.residual.next_provider_request_allowed ≡ (
      d.receipt.skipped
      || (is_awaiting d.receipt.residual.host_validation_status
          && d.receipt.residual.core_install_retained_pending_host_validation))
  pub balanced : writer_run false d.effects ≡ some false
  pub released : d.receipt.residual.writer_released ≡ true
  pub refused : d.receipt.refused ≡ false
  pub refuse_code : d.receipt.refuse_code ≡ none

unfoldable pub exit_facts : Unit {0}
unfolding decline_to_ordinary decline_unsupported_version writer_owned_elsewhere skip
    continue_normal normal_complete decline_to_ordinary_parts writer_owned_elsewhere_parts
    skip_parts continue_normal_parts normal_complete_parts build residual
    applied_boundary_residual_overlay empty_residual_extras attempt_failed_after_preserve
    attempt_failed_after_preserve_parts attempt_failed_after_continue
    attempt_failed_after_continue_parts installed installed_parts
exit_facts = tt

-- The residual state of an installed view withholds the request while it awaits the host.
abbrev IsServed : Residual → Type 0
IsServed r =
    (not r.next_provider_request_allowed
      ≡ (is_awaiting r.host_validation_status && r.core_install_retained_pending_host_validation))
    × (r.writer_released ≡ true)
