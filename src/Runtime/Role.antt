-- ===== src/Runtime/Role.antt =====
-- Which of two peers controls the other (crates/edge-runtime/src/role.rs).
pub mod Coordinator
pub mod Validation
pub mod Selection
use mouse_without_borders.Base.{
  Bool, ◌&&◌, ◌||◌, ◌==◌, str_eq, String, Option, none, some, if◌then◌else◌, ℕ,
}
use mouse_without_borders.Protocol.Roles.{RoleState}

pub record InputDirectionCapabilities : Type 0 where
  pub controller_can_capture : Bool
  pub receiver_can_inject : Bool

abbrev pub complete : InputDirectionCapabilities → Bool
complete c = c.controller_can_capture && c.receiver_can_inject

unfoldable pub select_initial_controller :
    String → String → Bool → InputDirectionCapabilities → InputDirectionCapabilities → Option String
select_initial_controller connector listener prefer_connector connector_controls listener_controls =
    let preferred : String × InputDirectionCapabilities =
      if prefer_connector then (connector, connector_controls) else (listener, listener_controls) in
    let fallback : String × InputDirectionCapabilities =
      if prefer_connector then (listener, listener_controls) else (connector, connector_controls) in
    if complete preferred.1
    then some preferred.0
    else if complete fallback.1
    then some fallback.0
    else none

pub data RoleStateError : Type 0 where
  unknown_controller transition_in_progress epoch_overflow : RoleStateError
  -- expected, actual
  unexpected_epoch : ℕ → ℕ → RoleStateError
  controller_mismatch invalid_transition no_transition : RoleStateError

pub data RoleDecision : Type 0 where
  commit abort : RoleState → RoleDecision

-- `CommittedRole` and its version, 1.
pub record CommittedRole : Type 0 where
  pub version : ℕ  -- u16
  pub controller_fingerprint : String

abbrev pub role_state_version : ℕ
role_state_version = 1

unfoldable pub committed_role : String → CommittedRole
committed_role controller = record {
  version = role_state_version;
  controller_fingerprint = controller;
}

unfoldable pub belongs_to : CommittedRole → String → String → Bool
belongs_to c first second =
    c.version == role_state_version
    && (str_eq c.controller_fingerprint first || str_eq c.controller_fingerprint second)
