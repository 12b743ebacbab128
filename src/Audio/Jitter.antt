-- ===== src/Audio/Jitter.antt =====
-- Reordering of audio packets (crates/edge-audio/src/lib.rs: `JitterBuffer`). `as usize + 1` wraps
-- at 64 bits, as it does in a release build.
pub mod Order
pub mod Playout
use mouse_without_borders.Base.{
  ℕ, ◌+◌, ◌-◌, ◌*◌, ◌/◌, ◌%◌, min, max, ltb, not, Bool, true, false, Option, none, some, List, [],
  ◌∷◌, length, if◌then◌else◌, is_some,
}
use mouse_without_borders.Base.Bytes.{u64_mod}
use mouse_without_borders.Base.OrderedMap.{insert, get, remove, first_key, last_key}
use mouse_without_borders.Audio.Packet.{AudioPacket}

abbrev pub frame_ms : ℕ
frame_ms = 5

pub record JitterBuffer : Type 0 where
  pub packets : List (ℕ × AudioPacket)
  pub next_sequence : Option ℕ  -- u64
  pub target_packets : ℕ  -- usize
  pub max_packets : ℕ  -- usize
  pub started : Bool

-- `clamp(24, 96)` as `max(24).min(96)`.
unfoldable pub new : ℕ → JitterBuffer
new target_ms =
    let target = max (max target_ms frame_ms / frame_ms) 1 in
    record {
      packets = [];
      next_sequence = none;
      target_packets = target;
      max_packets = min (max (target * 3) 24) 96;
      started = false;
    }

-- The `while` loop of `push`: the oldest packets go, and the next one becomes the first left.
unfoldable pub trim : ℕ → Option ℕ → List (ℕ × AudioPacket) → List (ℕ × AudioPacket) × Option ℕ
trim bound next [] = ([], next)
trim bound next (e ∷ rest) =
    let shorter = trim bound (first_key rest) rest in
    if ltb bound (length (e ∷ rest)) then shorter else (e ∷ rest, next)

abbrev pub is_late : Option ℕ → ℕ → Bool
is_late none sequence = false
is_late (some next) sequence = ltb sequence next

abbrev pub earliest : Option ℕ → ℕ → ℕ
earliest none sequence = sequence
earliest (some next) sequence = min next sequence

abbrev pub get_or_insert : Option ℕ → ℕ → ℕ
get_or_insert none sequence = sequence
get_or_insert (some next) sequence = next

-- What `push` expects next before it inserts: a buffer that plays keeps its place.
abbrev pub expected_next : JitterBuffer → ℕ → ℕ
expected_next b sequence =
    if b.started then get_or_insert b.next_sequence sequence else earliest b.next_sequence sequence

-- The early return of `push`.
abbrev pub refuses : JitterBuffer → ℕ → Bool
refuses b sequence = if b.started then is_late b.next_sequence sequence else false

unfoldable pub push : JitterBuffer → AudioPacket → JitterBuffer × Bool
unfolding trim
push b packet =
    if refuses b packet.sequence
    then (b, false)
    else let next = expected_next b packet.sequence in
      let inserted = not (is_some (get packet.sequence b.packets)) in
      let trimmed = trim b.max_packets (some next) (insert packet.sequence packet b.packets) in
      (record b { packets = trimmed.0; next_sequence = trimmed.1 }, inserted)

pop_at : JitterBuffer → ℕ → ℕ → JitterBuffer × Option (Option AudioPacket)
pop_at b sequence highest =
    if ltb ((highest - sequence + 1) % u64_mod) b.target_packets then (b, none) else (
      record b {
        packets = remove sequence b.packets;
        next_sequence = some ((sequence + 1) % u64_mod);
        started = true;
      },
      some (get sequence b.packets),
    )

-- `none`: not ready. `some none`: the packet that is due is missing.
unfoldable pub pop_ready : JitterBuffer → JitterBuffer × Option (Option AudioPacket)
unfolding pop_at
pop_ready b = elim b.next_sequence [
  | none ↦ (b, none)
  | some sequence ↦ elim (last_key b.packets) [
    | none ↦ (b, none)
    | some highest ↦ pop_at b sequence highest
  ]
]
