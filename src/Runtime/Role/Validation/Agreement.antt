-- ===== src/Runtime/Role/Validation/Agreement.antt =====
-- The coordinator and the validating listener agree on every change of role.
use mouse_without_borders.Base.{
  ◌+◌, ◌≡◌, ◌⊎◌, refl, true, false, String, Option, none, some, ok, err, arith, option_str_eq,
  or_else, eq_refl, eq_iff,
}
use mouse_without_borders.Protocol.Roles.{RoleState, RoleTransitionState, stable, preparing, failed}
use mouse_without_borders.Runtime.Role.{invalid_transition, commit, abort}
use mouse_without_borders.Runtime.Role.Coordinator.{
  RoleCoordinator, Readiness, all_ready, aborted, default_detail, prepare, finish_ready,
}
use mouse_without_borders.Runtime.Role.Validation.{validate_prepare, validate_commit}

-- What the coordinator prepares passes the listener's check, whenever the listener is at the same
-- epoch.
pub validate_prepare-prepare :
    (c c' : RoleCoordinator) (who : String) (held prepared : RoleState)
    → held.role_epoch ≡ c.current.role_epoch
    → prepare c who ≡ (c', ok prepared)
    → validate_prepare held prepared c.connector_fingerprint c.listener_fingerprint ≡ ok tt
unfolding validate_prepare prepare
validate_prepare-prepare c c' who held prepared same h = ground (arith, eq_refl who)

option_str_eq→eq : (o : Option String) (s : String) → option_str_eq o (some s) ≡ true → o ≡ some s
option_str_eq→eq none s h = cc
option_str_eq→eq (some t) s h = ground (arith, eq_iff t s)

-- What the listener accepts as a preparation: one of the pair, named twice, at the next epoch.
pub validate_prepare_sound :
    (held prepared : RoleState) (connector listener : String)
    → validate_prepare held prepared connector listener ≡ ok tt
    → (who : String) × (prepared.transition ≡ preparing who)
      × ((who ≡ connector) ⊎ (who ≡ listener))
      × (prepared.controller_fingerprint ≡ some who)
      × (prepared.role_epoch ≡ held.role_epoch + 1)
unfolding validate_prepare
validate_prepare_sound held prepared connector listener h = at prepared.transition refl
  where
    at :
        (t : RoleTransitionState)
        → prepared.transition ≡ t
        → (who : String) × (prepared.transition ≡ preparing who)
          × ((who ≡ connector) ⊎ (who ≡ listener))
          × (prepared.controller_fingerprint ≡ some who)
          × (prepared.role_epoch ≡ held.role_epoch + 1)
    at stable e = ground arith
    at failed e = ground arith
    at (preparing who) e = (
      who,
      e,
      ground (arith, eq_iff who connector, eq_iff who listener),
      ground (arith, option_str_eq→eq prepared.controller_fingerprint who),
      ground arith,
    )

-- After an accepted preparation, and once every backend is ready, the coordinator commits: the new
-- state passes the listener's check
-- against the preparation that it accepted, it is the state that the coordinator holds from then
-- on, with the proposed controller, and no change is pending any more.
pub validate_commit-finish_ready :
    (c c' : RoleCoordinator) (who : String) (ready : Readiness) (detail : Option String)
    (prepared : RoleState)
    → prepare c who ≡ (c', ok prepared)
    → all_ready ready ≡ true
    → let (c'', answer) = finish_ready c' prepared.role_epoch ready detail in
      (answer ≡ ok (commit c''.current))
      × (validate_commit prepared c''.current ≡ ok tt)
      × (c''.current.controller_fingerprint ≡ some who)
      × (c''.pending ≡ none)
unfolding validate_commit prepare finish_ready
validate_commit-finish_ready c c' who ready detail prepared h all = ground (arith, eq_refl who)

-- After an accepted preparation, if a backend is not ready, the coordinator is back in the state
-- before the preparation, and it answers with an abort at the old epoch, which the listener would
-- not accept as a commit.
pub unready-finish_ready :
    (c c' : RoleCoordinator) (who : String) (ready : Readiness) (detail : Option String)
    (prepared : RoleState)
    → prepare c who ≡ (c', ok prepared)
    → all_ready ready ≡ false
    → let (c'', answer) = finish_ready c' prepared.role_epoch ready detail in
      (c'' ≡ c)
      × ((s : RoleState) × (answer ≡ ok (abort s))
          × (s.role_epoch ≡ c.current.role_epoch)
          × (validate_commit prepared s ≡ err invalid_transition))
unfolding validate_commit prepare finish_ready
unready-finish_ready c c' who ready detail prepared h all = (
  ground arith,
  (aborted c.current (or_else detail default_detail), ground arith, refl, ground arith),
)
