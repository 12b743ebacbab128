-- ===== src/Runtime/Liveness.antt =====
-- Liveness of the peer (crates/edge-runtime/src/lib.rs: `LivenessConfig`, `LivenessTracker`).
-- Instants and durations are numbers of nanoseconds; `saturating_duration_since` is `-`.
pub mod Timeouts
use mouse_without_borders.Base.{
  ℕ, ◌-◌, ◌<◌, max, leb, not, Bool, true, false, ◌&&◌, Option, none, some, if◌then◌else◌,
}

pub record LivenessConfig : Type 0 where
  pub active_heartbeat_interval : ℕ
  pub idle_heartbeat_interval : ℕ
  pub soft_input_timeout : ℕ
  pub hard_session_timeout : ℕ

-- `Default`: 250 ms, 1 s, 2 s and 5 s.
abbrev pub default_config : LivenessConfig
default_config = record {
  active_heartbeat_interval = 250000000;
  idle_heartbeat_interval = 1000000000;
  soft_input_timeout = 2000000000;
  hard_session_timeout = 5000000000;
}

unfoldable pub heartbeat_interval : LivenessConfig → Bool → ℕ
heartbeat_interval c input_armed_or_transitioning =
    if input_armed_or_transitioning then c.active_heartbeat_interval else c.idle_heartbeat_interval

pub data LivenessEvent : Type 0 where
  soft_input_timeout hard_session_timeout : LivenessEvent

pub record LivenessTracker : Type 0 where
  pub config : LivenessConfig
  pub last_authenticated_activity : ℕ
  pub input_active_since : Option ℕ
  pub soft_timeout_reported : Bool
  pub hard_timeout_reported : Bool

-- What `new` asserts.
abbrev pub IsOrdered : LivenessConfig → Type 0
IsOrdered c = c.soft_input_timeout < c.hard_session_timeout

unfoldable pub new : LivenessConfig → ℕ → LivenessTracker
new config now = record {
  config = config;
  last_authenticated_activity = now;
  input_active_since = none;
  soft_timeout_reported = false;
  hard_timeout_reported = false;
}

unfoldable pub observe_authenticated_frame : LivenessTracker → ℕ → LivenessTracker
observe_authenticated_frame t now = record t {
  last_authenticated_activity = now;
  soft_timeout_reported = false;
  hard_timeout_reported = false;
}

abbrev pub elapsed : LivenessTracker → ℕ → ℕ
elapsed t now = now - t.last_authenticated_activity

-- `get_or_insert`.
abbrev pub get_or_insert : Option ℕ → ℕ → ℕ
get_or_insert none now = now
get_or_insert (some since) now = since

-- The rest of `poll` once the input is known to be active.
poll_input : LivenessTracker → ℕ → LivenessTracker × Option LivenessEvent
poll_input t now =
    let since = get_or_insert t.input_active_since now in
    let t' = record t { input_active_since = some since } in
    if leb t.config.soft_input_timeout (now - max t.last_authenticated_activity since)
      && not t.soft_timeout_reported
    then (record t' { soft_timeout_reported = true }, some soft_input_timeout)
    else (t', none)

unfoldable pub poll : LivenessTracker → ℕ → Bool → LivenessTracker × Option LivenessEvent
unfolding poll_input
poll t now input_active =
    if leb t.config.hard_session_timeout (elapsed t now) && not t.hard_timeout_reported
    then (record t { hard_timeout_reported = true }, some hard_session_timeout)
    else if not input_active
    then (record t { input_active_since = none; soft_timeout_reported = false }, none)
    else poll_input t now
