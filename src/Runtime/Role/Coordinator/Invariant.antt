-- ===== src/Runtime/Role/Coordinator/Invariant.antt =====
-- What holds of the coordinator between two calls, and how its epoch moves.
use mouse_without_borders.Base.{
  ℕ, ◌+◌, ◌≡◌, Bool, false, String, Option, none, some, List, [], ◌∷◌, Result, ok, arith,
}
use mouse_without_borders.Protocol.Roles.{Edge, stable}
use mouse_without_borders.Runtime.Role.{RoleStateError, RoleDecision, commit}
use mouse_without_borders.Runtime.Role.Coordinator.{
  RoleCoordinator, PendingRole, Readiness, is_stranger, new, set_paused, prepare, finish_ready,
  abort_transition,
}

-- A pending change starts from the current state, proposes one of the pair, and the next epoch.
abbrev pub IsPendingOf : RoleCoordinator → Option PendingRole → Type 0
IsPendingOf c none = Unit {0}
IsPendingOf c (some p) =
    (p.previous ≡ c.current)
    × (p.proposed_epoch ≡ c.current.role_epoch + 1)
    × (is_stranger (some p.proposed_controller_fingerprint) c.connector_fingerprint
          c.listener_fingerprint
        ≡ false)

pub record IsValid (c : RoleCoordinator) : Type 0 where
  pub known :
      is_stranger c.current.controller_fingerprint c.connector_fingerprint c.listener_fingerprint
      ≡ false
  pub settled : c.current.transition ≡ stable
  pub pending_ok : IsPendingOf c c.pending

-- A coordinator that `new` returns is valid.
pub new-IsValid :
    (connector listener : String) (controller : Option String) (epoch : ℕ) (edge : Edge)
    (paused : Bool) {c : RoleCoordinator}
    → new connector listener controller epoch edge paused ≡ ok c
    → IsValid c
unfolding new
new-IsValid connector listener controller epoch edge paused h = ground arith

set_paused-IsValid :
    (c : RoleCoordinator) (paused : Bool) → IsValid c → IsValid (set_paused c paused).0
unfolding set_paused
set_paused-IsValid c paused v = ground arith

prepare-IsValid : (c : RoleCoordinator) (who : String) → IsValid c → IsValid (prepare c who).0
unfolding prepare
prepare-IsValid c who v = ground arith

finish_ready-IsValid :
    (c : RoleCoordinator) (epoch : ℕ) (ready : Readiness) (detail : Option String)
    → IsValid c
    → IsValid (finish_ready c epoch ready detail).0
unfolding finish_ready
finish_ready-IsValid c epoch ready detail v = ground arith

abort_transition-IsValid :
    (c : RoleCoordinator) (detail : String) → IsValid c → IsValid (abort_transition c detail).0
unfolding abort_transition
abort_transition-IsValid c detail v = ground arith

-- The calls of a session.
pub data Call : Type 0 where
  pauses : Bool → Call
  prepares : String → Call
  finishes : ℕ → Readiness → Option String → Call
  aborts : String → Call

abbrev pub step : RoleCoordinator → Call → RoleCoordinator
step c (pauses paused) = (set_paused c paused).0
step c (prepares who) = (prepare c who).0
step c (finishes epoch ready detail) = (finish_ready c epoch ready detail).0
step c (aborts detail) = (abort_transition c detail).0

abbrev pub run : RoleCoordinator → List Call → RoleCoordinator
run c [] = c
run c (k ∷ ks) = run (step c k) ks

step-IsValid : (c : RoleCoordinator) (k : Call) → IsValid c → IsValid (step c k)
step-IsValid c (pauses paused) v = set_paused-IsValid c paused v
step-IsValid c (prepares who) v = prepare-IsValid c who v
step-IsValid c (finishes epoch ready detail) v = finish_ready-IsValid c epoch ready detail v
step-IsValid c (aborts detail) v = abort_transition-IsValid c detail v

-- Over any calls on a valid coordinator: the controller is one of the pair or nobody, the state held is a stable one, and
-- a pending change starts from it, for one of the pair, at the next epoch.
pub run-IsValid : (c : RoleCoordinator) (ks : List Call) → IsValid c → IsValid (run c ks)
run-IsValid c [] v = v
run-IsValid c (k ∷ ks) v = run-IsValid (step c k) ks (step-IsValid c k v)

abbrev counted : Result RoleStateError RoleDecision → ℕ
counted (ok (commit s)) = 1
counted _ = 0

-- The number of commits among the answers.
abbrev pub commits : RoleCoordinator → List Call → ℕ
commits c [] = 0
commits c (finishes epoch ready detail ∷ ks) =
    counted (finish_ready c epoch ready detail).1
    + commits (step c (finishes epoch ready detail)) ks
commits c (k ∷ ks) = commits (step c k) ks

epoch-finish_ready :
    (c : RoleCoordinator) (epoch : ℕ) (ready : Readiness) (detail : Option String)
    → IsValid c
    → (finish_ready c epoch ready detail).0.current.role_epoch
      ≡ c.current.role_epoch + counted (finish_ready c epoch ready detail).1
unfolding finish_ready
epoch-finish_ready c epoch ready detail v = ground arith

epoch-set_paused :
    (c : RoleCoordinator) (paused : Bool)
    → (set_paused c paused).0.current.role_epoch ≡ c.current.role_epoch
unfolding set_paused
epoch-set_paused c paused = ground arith

epoch-prepare :
    (c : RoleCoordinator) (who : String)
    → (prepare c who).0.current.role_epoch ≡ c.current.role_epoch
unfolding prepare
epoch-prepare c who = ground arith

epoch-abort_transition :
    (c : RoleCoordinator) (detail : String)
    → IsValid c
    → (abort_transition c detail).0.current.role_epoch ≡ c.current.role_epoch
unfolding abort_transition
epoch-abort_transition c detail v = ground arith

-- From a valid coordinator on, the epoch grows by the number of commits among the answers, over any
-- calls: nothing else moves it, aborted and refused changes included.
pub epoch-run :
    (c : RoleCoordinator) (ks : List Call)
    → IsValid c
    → (run c ks).current.role_epoch ≡ c.current.role_epoch + commits c ks
epoch-run c [] v = omega arith
epoch-run c (finishes epoch ready detail ∷ ks) v = omega (
  arith,
  epoch-run (step c (finishes epoch ready detail)) ks (finish_ready-IsValid c epoch ready detail v),
  epoch-finish_ready c epoch ready detail v,
)
epoch-run c (pauses paused ∷ ks) v = omega (
  arith,
  epoch-run (step c (pauses paused)) ks (set_paused-IsValid c paused v),
  epoch-set_paused c paused,
)
epoch-run c (prepares who ∷ ks) v =
    omega
      (arith, epoch-run (step c (prepares who)) ks (prepare-IsValid c who v), epoch-prepare c who)
epoch-run c (aborts detail ∷ ks) v = omega (
  arith,
  epoch-run (step c (aborts detail)) ks (abort_transition-IsValid c detail v),
  epoch-abort_transition c detail v,
)
