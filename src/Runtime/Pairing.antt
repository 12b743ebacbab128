-- ===== src/Runtime/Pairing.antt =====
-- Two-sided pairing and the gate for remote input (crates/edge-runtime/src/lib.rs:
-- `resolve_pairing`, `InputEpochGate`).
pub mod Consent
use mouse_without_borders.Base.{
  Bool, true, false, ◌&&◌, ◌||◌, not, Option, none, some, if◌then◌else◌,
}
use mouse_without_borders.Protocol.Frame.{ControlEvent, enter_remote}

pub record PairingStatus : Type 0 where
  pub trusted : Bool
  pub armed : Bool

pub data PairingResolution : Type 0 where
  already_trusted approval_required not_armed declined accepted : PairingResolution

abbrev pub decide : Option (Bool × Bool) → PairingResolution
decide none = approval_required
decide (some (true, true)) = accepted
decide (some (true, false)) = declined
decide (some (false, second)) = declined

unfoldable pub resolve_pairing :
    PairingStatus → PairingStatus → Option (Bool × Bool) → PairingResolution
resolve_pairing local_status peer decisions =
    if local_status.trusted && peer.trusted
    then already_trusted
    else if not local_status.armed || not peer.armed
    then not_armed
    else decide decisions

pub record InputEpochGate : Type 0 where
  pub suspended : Bool

unfoldable pub new_gate : InputEpochGate
new_gate = record { suspended = true }

unfoldable pub suspend : InputEpochGate → InputEpochGate
suspend g = record { suspended = true }

unfoldable pub observe_control : InputEpochGate → ControlEvent → InputEpochGate
observe_control g (enter_remote edge position) = record { suspended = false }
observe_control g _ = g

unfoldable pub accepts_input : InputEpochGate → Bool
accepts_input g = not g.suspended
