-- ===== src/Examples/Session.antt =====
-- A session's timers and its round trip.
use mouse_without_borders.Base.{
  ℕ, ◌≡◌, refl, true, false, none, some, arith, List, [], ◌∷◌, if◌then◌else◌,
}
use mouse_without_borders.Protocol.Frame.{Heartbeat}
use mouse_without_borders.Protocol.Heartbeat.{
  HeartbeatPing, new, outgoing, incoming, plain, with_reply,
}
use mouse_without_borders.Protocol.Heartbeat.Trip.{echo_round_trip, stale_echo_dropped}
use mouse_without_borders.Runtime.Liveness.{
  LivenessTracker, default_config, soft_input_timeout, poll,
}
use mouse_without_borders.Runtime.Liveness.Timeouts.{
  Call, poll_at, reports, hard_reports, overdue, hard_reports-silent,
}

-- Five seconds, in nanoseconds.
abbrev five_seconds : ℕ
five_seconds = 5000000000

abbrev tracker : LivenessTracker
tracker = record {
  config = default_config;
  last_authenticated_activity = 0;
  input_active_since = some 0;
  soft_timeout_reported = false;
  hard_timeout_reported = false;
}

abbrev silence : List Call
silence = poll_at five_seconds true ∷ poll_at 6000000000 true ∷ poll_at 7000000000 false ∷ []

one_hard_report : hard_reports (reports tracker silence) ≡ 1
unfolding reports poll
one_hard_report = refl

hard_reports-silent_example :
    hard_reports (reports tracker silence) ≡ (if overdue five_seconds 0 silence then 1 else 0)
hard_reports-silent_example = hard_reports-silent silence tracker tt refl

soft_reported : (poll tracker 3000000000 true).1 ≡ some soft_input_timeout
unfolding poll
soft_reported = refl

-- A full window loses its oldest sample.
abbrev measured : HeartbeatPing
measured = record new { samples = 10 ∷ (20 ∷ (30 ∷ (40 ∷ (50 ∷ [])))) }

echo_round_trip_example :
    let (asked, request) = outgoing measured 9 100 in
    let (peer, reply) = incoming new request 150 in
    (peer ≡ new)
    × ((r : Heartbeat) × (reply ≡ some r)
        × (incoming asked r 300 ≡ (
          record asked { samples = 20 ∷ (30 ∷ (40 ∷ (50 ∷ (200 ∷ [])))); pending = none },
          none,
        )))
echo_round_trip_example = echo_round_trip measured new 9 100 150 300 refl (omega arith)

stale_echo_is_dropped : incoming new (record { sequence = with_reply (plain 9) }) 100 ≡ (new, none)
stale_echo_is_dropped = stale_echo_dropped new 9 100 (λ sent h. cc)
