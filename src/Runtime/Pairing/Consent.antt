-- ===== src/Runtime/Pairing/Consent.antt =====
-- Both peers see a pairing alike, and input needs an explicit entry.
use mouse_without_borders.Base.{
  ◌≡◌, refl, Bool, true, false, ◌||◌, Option, none, some, List, [], ◌∷◌, arith,
}
use mouse_without_borders.Protocol.Frame.{ControlEvent, enter_remote}
use mouse_without_borders.Runtime.Pairing.{
  PairingStatus, resolve_pairing, InputEpochGate, new_gate, suspend, observe_control, accepts_input,
}

abbrev pub swap : Option (Bool × Bool) → Option (Bool × Bool)
swap none = none
swap (some (a, b)) = some (b, a)

-- Both peers resolve a pairing to the same answer, each taking itself for the local side.
pub resolve_pairing_symm :
    (local_status peer : PairingStatus) (decisions : Option (Bool × Bool))
    → resolve_pairing local_status peer decisions
      ≡ resolve_pairing peer local_status (swap decisions)
unfolding resolve_pairing
resolve_pairing_symm local_status peer decisions = ground arith

abbrev pub is_enter : ControlEvent → Bool
is_enter (enter_remote edge position) = true
is_enter _ = false

abbrev pub has_enter : List ControlEvent → Bool
has_enter [] = false
has_enter (e ∷ es) = is_enter e || has_enter es

abbrev pub observe_all : InputEpochGate → List ControlEvent → InputEpochGate
observe_all g [] = g
observe_all g (e ∷ es) = observe_all (observe_control g e) es

observe_control-enter :
    (g : InputEpochGate) (e : ControlEvent)
    → accepts_input (observe_control g e) ≡ (is_enter e || accepts_input g)
unfolding observe_control accepts_input
observe_control-enter g e = ground arith

accepts_input-observe_all :
    (g : InputEpochGate) (es : List ControlEvent)
    → accepts_input (observe_all g es) ≡ (has_enter es || accepts_input g)
accepts_input-observe_all g [] = refl
accepts_input-observe_all g (e ∷ es) =
    ground (arith, accepts_input-observe_all (observe_control g e) es, observe_control-enter g e)

-- After a suspension, as at the start, input is accepted exactly if the peer has entered since.
pub accepts_input-suspend :
    (g : InputEpochGate) (es : List ControlEvent)
    → (accepts_input (observe_all (suspend g) es) ≡ has_enter es)
      × (accepts_input (observe_all new_gate es) ≡ has_enter es)
unfolding suspend new_gate accepts_input
accepts_input-suspend g es = (
  ground (arith, accepts_input-observe_all (record { suspended = true }) es),
  ground (arith, accepts_input-observe_all (record { suspended = true }) es),
)
