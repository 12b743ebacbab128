-- ===== src/Runtime/Role/Validation.antt =====
-- The listener's checks of role messages (crates/edge-runtime/src/role.rs: `validate_prepare`,
-- `validate_commit`).
pub mod Agreement
use mouse_without_borders.Base.{
  ℕ, ◌+◌, ◌==◌, not, ◌&&◌, ◌||◌, Bool, true, false, String, str_eq, option_str_eq, Option, none,
  some, Result, ok, err, ◌>>=◌, ◌>>◌, fail_if, ok_or,
}
use mouse_without_borders.Base.Bytes.{checked_u64}
use mouse_without_borders.Protocol.Roles.{RoleState, RoleTransitionState, stable, preparing, failed}
use mouse_without_borders.Runtime.Role.{
  RoleStateError, unknown_controller, epoch_overflow, unexpected_epoch, controller_mismatch,
  invalid_transition,
}

-- The match on `Preparing`.
abbrev pub proposed_of : RoleTransitionState → Result RoleStateError String
proposed_of (preparing controller) = ok controller
proposed_of _ = err invalid_transition

unfoldable pub validate_prepare :
    RoleState → RoleState → String → String → Result RoleStateError (Unit {0})
validate_prepare current prepare connector listener = do
  proposed ← proposed_of prepare.transition
  fail_if (not (str_eq proposed connector) && not (str_eq proposed listener)) unknown_controller
  fail_if (not (option_str_eq prepare.controller_fingerprint (some proposed))) controller_mismatch
  expected ← ok_or (checked_u64 (current.role_epoch + 1)) epoch_overflow
  fail_if (not (prepare.role_epoch == expected)) (unexpected_epoch expected prepare.role_epoch)

abbrev pub is_preparing : RoleTransitionState → Bool
is_preparing (preparing controller) = true
is_preparing _ = false

abbrev pub is_stable : RoleTransitionState → Bool
is_stable stable = true
is_stable _ = false

unfoldable pub validate_commit : RoleState → RoleState → Result RoleStateError (Unit {0})
validate_commit prepared commit = do
  fail_if (not (is_preparing prepared.transition) || not (is_stable commit.transition))
      invalid_transition
  fail_if (not (prepared.role_epoch == commit.role_epoch))
      (unexpected_epoch prepared.role_epoch commit.role_epoch)
  fail_if (not (option_str_eq prepared.controller_fingerprint commit.controller_fingerprint))
      controller_mismatch
