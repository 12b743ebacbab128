-- ===== src/Runtime/Role/Coordinator.antt =====
-- The connector's serialization of role changes (crates/edge-runtime/src/role.rs:
-- `RoleCoordinator`). A method returns the new state and its result; `expected` texts of a failure
-- are the source's.
pub mod Invariant
use mouse_without_borders.Base.{
  ℕ, ◌+◌, ◌==◌, not, ◌&&◌, ◌||◌, Bool, true, false, String, str_eq, Option, none, some, or_else,
  if◌then◌else◌, Result, ok, err, is_some,
}
use mouse_without_borders.Base.Bytes.{checked_u64}
use mouse_without_borders.Protocol.Roles.{Edge, RoleState, stable, preparing, failed}
use mouse_without_borders.Runtime.Role.{
  RoleStateError, RoleDecision, unknown_controller, transition_in_progress, epoch_overflow,
  unexpected_epoch, no_transition, commit, abort,
}

pub record PendingRole : Type 0 where
  pub previous : RoleState
  pub proposed_controller_fingerprint : String
  pub proposed_epoch : ℕ  -- u64

pub record RoleCoordinator : Type 0 where
  pub connector_fingerprint : String
  pub listener_fingerprint : String
  pub current : RoleState  -- `stable`
  pub pending : Option PendingRole

abbrev pub is_stranger : Option String → String → String → Bool
is_stranger none connector listener = false
is_stranger (some c) connector listener = not (str_eq c connector) && not (str_eq c listener)

unfoldable pub new :
    String → String → Option String → ℕ → Edge → Bool → Result RoleStateError RoleCoordinator
new connector listener controller role_epoch listener_position paused =
    if is_stranger controller connector listener
    then err unknown_controller
    else ok (record {
      connector_fingerprint = connector;
      listener_fingerprint = listener;
      current = record {
        controller_fingerprint = controller;
        role_epoch = role_epoch;
        transition = stable;
        listener_position = listener_position;
        paused = paused;
        failure_detail = none;
      };
      pending = none;
    })

unfoldable pub set_paused :
    RoleCoordinator → Bool → RoleCoordinator × Result RoleStateError RoleState
set_paused c paused =
    if is_some c.pending
    then (c, err transition_in_progress)
    else let current = record (c.current) { paused = paused } in
      (record c { current = current }, ok current)

-- The state announced to the peer, and the change recorded as pending.
abbrev pub announced : RoleCoordinator → String → ℕ → RoleState
announced c controller epoch = record {
  controller_fingerprint = some controller;
  role_epoch = epoch;
  transition = preparing controller;
  listener_position = c.current.listener_position;
  paused = c.current.paused;
  failure_detail = none;
}

prepare_at : RoleCoordinator → String → Option ℕ → RoleCoordinator × Result RoleStateError RoleState
prepare_at c controller none = (c, err epoch_overflow)
prepare_at c controller (some epoch) = (
  record c {
    pending = some (record {
      previous = c.current;
      proposed_controller_fingerprint = controller;
      proposed_epoch = epoch;
    });
  },
  ok (announced c controller epoch),
)

unfoldable pub prepare :
    RoleCoordinator → String → RoleCoordinator × Result RoleStateError RoleState
unfolding prepare_at
prepare c controller =
    if is_some c.pending
    then (c, err transition_in_progress)
    else if not (str_eq controller c.connector_fingerprint)
        && not (str_eq controller c.listener_fingerprint)
    then (c, err unknown_controller)
    else prepare_at c controller (checked_u64 (c.current.role_epoch + 1))

abbrev pub committed : PendingRole → RoleState
committed p = record {
  controller_fingerprint = some p.proposed_controller_fingerprint;
  role_epoch = p.proposed_epoch;
  transition = stable;
  listener_position = p.previous.listener_position;
  paused = p.previous.paused;
  failure_detail = none;
}

abbrev pub aborted : RoleState → Option String → RoleState
aborted previous detail = record previous { transition = failed; failure_detail = detail }

abbrev pub default_detail : Option String
default_detail = some "one or more input backends were not ready"

-- The four readiness flags: local capture and inject, remote capture and inject.
pub record Readiness : Type 0 where
  pub local_capture_ready : Bool
  pub local_inject_ready : Bool
  pub remote_capture_ready : Bool
  pub remote_inject_ready : Bool

abbrev pub all_ready : Readiness → Bool
all_ready r =
    r.local_capture_ready && r.local_inject_ready && r.remote_capture_ready && r.remote_inject_ready

finish_pending :
    RoleCoordinator
    → Option PendingRole
    → ℕ
    → Readiness
    → Option String
    → RoleCoordinator × Result RoleStateError RoleDecision
finish_pending c none role_epoch ready detail = (c, err no_transition)
finish_pending c (some p) role_epoch ready detail =
    if not (role_epoch == p.proposed_epoch)
    then (c, err (unexpected_epoch p.proposed_epoch role_epoch))
    else if all_ready ready
    then (record c { current = committed p; pending = none }, ok (commit (committed p)))
    else (
      record c { current = p.previous; pending = none },
      ok (abort (aborted p.previous (or_else detail default_detail))),
    )

unfoldable pub finish_ready :
    RoleCoordinator
    → ℕ
    → Readiness
    → Option String
    → RoleCoordinator × Result RoleStateError RoleDecision
unfolding finish_pending
finish_ready c role_epoch ready detail = finish_pending c c.pending role_epoch ready detail

abort_pending :
    RoleCoordinator
    → Option PendingRole
    → String
    → RoleCoordinator × Result RoleStateError RoleState
abort_pending c none detail = (c, err no_transition)
abort_pending c (some p) detail =
    (record c { current = p.previous; pending = none }, ok (aborted p.previous (some detail)))

unfoldable pub abort_transition :
    RoleCoordinator → String → RoleCoordinator × Result RoleStateError RoleState
unfolding abort_pending
abort_transition c detail = abort_pending c c.pending detail
