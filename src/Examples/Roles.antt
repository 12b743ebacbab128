-- ===== src/Examples/Roles.antt =====
-- A change of role between two PCs.
use mouse_without_borders.Base.{◌+◌, ◌≡◌, refl, true, false, none, some, List, [], ◌∷◌, ok, err}
use mouse_without_borders.Protocol.Roles.{RoleState, right, stable}
use mouse_without_borders.Runtime.Role.{
  InputDirectionCapabilities, complete, select_initial_controller, invalid_transition, commit,
  abort,
}
use mouse_without_borders.Runtime.Role.Coordinator.{
  RoleCoordinator, Readiness, prepare, finish_ready, announced,
}
use mouse_without_borders.Runtime.Role.Coordinator.Invariant.{
  IsValid, Call, prepares, finishes, pauses, aborts, run, commits, run-IsValid, epoch-run,
}
use mouse_without_borders.Runtime.Role.Validation.{validate_prepare, validate_commit}
use mouse_without_borders.Runtime.Role.Validation.Agreement.{
  validate_commit-finish_ready, unready-finish_ready,
}

abbrev start : RoleCoordinator
start = record {
  connector_fingerprint = "a";
  listener_fingerprint = "b";
  current = record {
    controller_fingerprint = some "a";
    role_epoch = 3;
    transition = stable;
    listener_position = right;
    paused = false;
    failure_detail = none;
  };
  pending = none;
}

start-IsValid : IsValid start
start-IsValid = record { known = refl; settled = refl; pending_ok = tt }

abbrev ready : Readiness
ready = record {
  local_capture_ready = true;
  local_inject_ready = true;
  remote_capture_ready = true;
  remote_inject_ready = true;
}

abbrev unready : Readiness
unready = record ready { remote_inject_ready = false }

-- A change that fails, one that is aborted, and one that is committed.
abbrev calls : List Call
calls =
    prepares "b"
    ∷ finishes 4 unready none
    ∷ prepares "b"
    ∷ aborts "gone"
    ∷ prepares "b"
    ∷ finishes 4 ready none
    ∷ pauses true
    ∷ []

one_commit : commits start calls ≡ 1
unfolding prepare finish_ready mouse_without_borders.Runtime.Role.Coordinator.abort_transition
one_commit = refl

run-IsValid_example : IsValid (run start calls)
run-IsValid_example = run-IsValid start calls start-IsValid

epoch-run_example : (run start calls).current.role_epoch ≡ 3 + commits start calls
epoch-run_example = epoch-run start calls start-IsValid

abbrev proposed : RoleState
proposed = announced start "b" 4

abbrev waiting : RoleCoordinator
waiting = record start {
  pending = some (record {
    previous = start.current;
    proposed_controller_fingerprint = "b";
    proposed_epoch = 4;
  });
}

prepared : prepare start "b" ≡ (waiting, ok proposed)
unfolding prepare
prepared = refl

accepted : validate_prepare start.current proposed "a" "b" ≡ ok tt
unfolding validate_prepare
accepted = refl

validate_commit-finish_ready_example :
    let (c, answer) = finish_ready waiting 4 ready none in
    (answer ≡ ok (commit c.current))
    × (validate_commit proposed c.current ≡ ok tt)
    × (c.current.controller_fingerprint ≡ some "b")
    × (c.pending ≡ none)
validate_commit-finish_ready_example =
    validate_commit-finish_ready start waiting "b" ready none proposed prepared refl

unready-finish_ready_example :
    let (c, answer) = finish_ready waiting 4 unready none in
    (c ≡ start)
    × ((s : RoleState) × (answer ≡ ok (abort s))
        × (s.role_epoch ≡ 3)
        × (validate_commit proposed s ≡ err invalid_transition))
unready-finish_ready_example =
    unready-finish_ready start waiting "b" unready none proposed prepared refl

abbrev able : InputDirectionCapabilities
able = record { controller_can_capture = true; receiver_can_inject = true }

abbrev unable : InputDirectionCapabilities
unable = record { controller_can_capture = false; receiver_can_inject = true }
