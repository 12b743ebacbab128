-- ===== src/Protocol/Heartbeat.antt =====
-- The round trip measured over heartbeats (crates/edge-protocol/src/lib.rs, `HeartbeatPing`).
-- An instant is a number of nanoseconds; `duration_since` saturates at 0, as `-` does. Of a 64-bit
-- sequence, bit 62 asks for an echo and bit 61 marks one; the masks are written as arithmetic.
pub mod Bits
pub mod Trip
use mouse_without_borders.Base.{
  ℕ, ◌+◌, ◌-◌, ◌*◌, ◌/◌, ◌%◌, Bool, false, ◌&&◌, ◌||◌, Option, none, some, List, [], ◌∷◌, ◌++◌, ltb,
  ◌==◌, if◌then◌else◌, length,
}
use mouse_without_borders.Protocol.Frame.{Heartbeat}

-- 1 << 61, 1 << 62 and 1 << 63.
abbrev pub bit61 : ℕ
bit61 = 2305843009213693952

abbrev pub bit62 : ℕ
bit62 = 4611686018427387904

abbrev pub bit63 : ℕ
bit63 = 9223372036854775808

-- `s & ECHO_REQUEST != 0`, `s & ECHO_REPLY != 0`.
abbrev pub asks_echo : ℕ → Bool
asks_echo s = s / bit62 % 2 == 1

abbrev pub is_reply : ℕ → Bool
is_reply s = s / bit61 % 2 == 1

-- `s & SEQUENCE`: bits 61 and 62 cleared.
unfoldable pub plain : ℕ → ℕ
plain s = s % bit61 + s / bit63 * bit63

-- `| ECHO_REQUEST`, `| ECHO_REPLY` on a sequence that `plain` has cleared.
abbrev pub with_request : ℕ → ℕ
with_request s = s + bit62

abbrev pub with_reply : ℕ → ℕ
with_reply s = s + bit61

-- 2 s, 5 s and the number of samples kept.
abbrev pub interval : ℕ
interval = 2000000000

abbrev pub echo_timeout : ℕ
echo_timeout = 5000000000

abbrev pub max_samples : ℕ
max_samples = 5

pub record HeartbeatPing : Type 0 where
  pub pending : Option (ℕ × ℕ)
  pub last_asked : Option ℕ
  pub samples : List ℕ

abbrev pub new : HeartbeatPing
new = record { pending = none; last_asked = none; samples = [] }

abbrev pub waiting : Option (ℕ × ℕ) → ℕ → Bool
waiting none now = false
waiting (some (pending, sent)) now = ltb (now - sent) echo_timeout

abbrev pub too_soon : Option ℕ → ℕ → Bool
too_soon none now = false
too_soon (some asked) now = ltb (now - asked) interval

unfoldable pub outgoing : HeartbeatPing → ℕ → ℕ → HeartbeatPing × Heartbeat
outgoing ping sequence now =
    let s = plain sequence in
    if waiting ping.pending now || too_soon ping.last_asked now
    then (ping, record { sequence = s })
    else (
      record ping { pending = some (s, now); last_asked = some now },
      record { sequence = with_request s },
    )

-- `pop_front` when full, then `push_back`.
pop_front : List ℕ → List ℕ
pop_front [] = []
pop_front (x ∷ xs) = xs

unfoldable pub push_sample : List ℕ → ℕ → List ℕ
unfolding pop_front
push_sample samples trip =
    if length samples == max_samples then pop_front samples ++ trip ∷ [] else samples ++ trip ∷ []

unfoldable pub settle : Option (ℕ × ℕ) → HeartbeatPing → ℕ → ℕ → HeartbeatPing
unfolding push_sample
settle none ping s now = ping
settle (some (pending, sent)) ping s now =
    if pending == s
    then record ping { samples = push_sample ping.samples (now - sent); pending = none }
    else ping

unfoldable pub incoming : HeartbeatPing → Heartbeat → ℕ → HeartbeatPing × Option Heartbeat
unfolding settle
incoming ping heartbeat now =
    let s = plain heartbeat.sequence in
    if is_reply heartbeat.sequence
    then (settle ping.pending ping s now, none)
    else if asks_echo heartbeat.sequence
    then (ping, some (record { sequence = with_reply s }))
    else (ping, none)

unfoldable pub sum : List ℕ → ℕ
sum [] = 0
sum (x ∷ xs) = x + sum xs

unfoldable pub round_trip : HeartbeatPing → Option ℕ
unfolding sum
round_trip ping =
    let count = length ping.samples in if ltb 0 count then some (sum ping.samples / count) else none
