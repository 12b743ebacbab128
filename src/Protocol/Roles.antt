-- ===== src/Protocol/Roles.antt =====
-- Edges and the role messages (crates/edge-protocol/src/lib.rs, `Edge`, `RoleState`, `RoleEvent`).
use mouse_without_borders.Base.{ℕ, String, Bool, Option}

pub data Edge : Type 0 where
  left right top bottom : Edge

pub data RoleTransitionState : Type 0 where
  stable : RoleTransitionState
  preparing : String → RoleTransitionState
  failed : RoleTransitionState

pub record RoleState : Type 0 where
  pub controller_fingerprint : Option String
  pub role_epoch : ℕ  -- u64
  pub transition : RoleTransitionState
  pub listener_position : Edge
  pub paused : Bool
  pub failure_detail : Option String

pub data RoleEvent : Type 0 where
  session_state : RoleState → RoleEvent
  request : String → RoleEvent
  prepare : RoleState → RoleEvent
  -- role_epoch, capture_ready, inject_ready, failure_detail
  ready : ℕ → Bool → Bool → Option String → RoleEvent
  commit : RoleState → RoleEvent
  applied : ℕ → RoleEvent
  abort : RoleState → RoleEvent
  set_paused : Bool → RoleEvent
