-- ===== src/Audio/Jitter/Playout.antt =====
-- Any mix of arrivals and pops plays the packets in order.
use mouse_without_borders.Base.{
  ℕ, suc, ◌+◌, ◌≤◌, ◌<◌, ◌≡◌, refl, ◌∙◌, sym, subst, true, false, Option, none, some, List, [], ◌∷◌,
  length, arith, inl, inr, ◌⊎◌, Option-cases,
}
use mouse_without_borders.Base.Bytes.{u64_mod}
use mouse_without_borders.Base.OrderedMap.{get}
use mouse_without_borders.Base.OrderedMap.Laws.{get_sound}
use mouse_without_borders.Audio.Packet.{AudioPacket}
use mouse_without_borders.Audio.Jitter.{JitterBuffer, new, push, pop_ready}
use mouse_without_borders.Audio.Jitter.Order.{
  IsValid, IsEntry, IsFrom, new-IsValid, push-IsValid, started-push, push_advances, pop_ready_cases,
  popped, popped-IsValid, pop_ready-IsValid,
}

pub data Call : Type 0 where
  arrives : AudioPacket → Call
  pops : Call

-- The sequence numbers of the packets that a pop returned.
abbrev prepend : Option (Option AudioPacket) → List ℕ → List ℕ
prepend none xs = xs
prepend (some none) xs = xs
prepend (some (some p)) xs = p.sequence ∷ xs

unfoldable pub played : JitterBuffer → List Call → List ℕ
played b [] = []
played b (arrives p ∷ rest) = played (push b p).0 rest
played b (pops ∷ rest) = let (b', o) = pop_ready b in prepend o (played b' rest)

abbrev pub run : JitterBuffer → List Call → JitterBuffer
run b [] = b
run b (arrives p ∷ rest) = run (push b p).0 rest
run b (pops ∷ rest) = run (pop_ready b).0 rest

-- No packet carries the last sequence number, after which the counter would start over.
abbrev pub IsWire : List Call → Type 0
IsWire [] = Unit {0}
IsWire (arrives p ∷ rest) = (p.sequence + 1 < u64_mod) × IsWire rest
IsWire (pops ∷ rest) = IsWire rest

abbrev pub IsIncreasingFrom : ℕ → List ℕ → Type 0
IsIncreasingFrom lo [] = Unit {0}
IsIncreasingFrom lo (x ∷ xs) = (lo ≤ x) × IsIncreasingFrom (suc x) xs

-- All that was played lies below `lo`, and the buffer goes on from there.
abbrev IsPast : JitterBuffer → ℕ → Type 0
IsPast b lo =
    ((b.started ≡ false) × (lo ≡ 0))
    ⊎ ((n : ℕ) × (b.started ≡ true) × (b.next_sequence ≡ some n) × (lo ≤ n))

push-IsPast :
    (b : JitterBuffer) (p : AudioPacket) (lo : ℕ)
    → IsValid b
    → p.sequence + 1 < u64_mod
    → IsPast b lo
    → IsPast (push b p).0 lo
push-IsPast b p lo v w (inl (off, z)) = inl (started-push b p ∙ off, z)
push-IsPast b p lo v w (inr (m, on, e, le)) =
    let (n, f, more) = push_advances b p m v w on e in
    inr (n, started-push b p ∙ on, f, omega arith)

-- Where a buffer stands that has taken the sequence number `s`.
past-le : (b : JitterBuffer) (lo s : ℕ) → IsPast b lo → b.next_sequence ≡ some s → lo ≤ s
past-le b lo s past e = ground arith

prepend-IsIncreasingFrom :
    (b : JitterBuffer) (lo s : ℕ) (xs : List ℕ)
    → IsFrom (some s) b.packets
    → lo ≤ s
    → IsIncreasingFrom (suc s) xs
    → IsIncreasingFrom lo (prepend (some (get s b.packets)) xs)
prepend-IsIncreasingFrom b lo s xs q le inc = elim (Option-cases (get s b.packets)) [
  | inl missing ↦ rw missing (weaken lo (suc s) xs (omega arith) inc)
  | inr (p, found) ↦
      let (above, (same, room)) = get_sound IsEntry s s b.packets {v = p} q found in
      rw found (omega arith, subst (λ k. IsIncreasingFrom (suc k) xs) (sym same) inc)
]
  where
    weaken : (lo hi : ℕ) (xs : List ℕ) → lo ≤ hi → IsIncreasingFrom hi xs → IsIncreasingFrom lo xs
    weaken lo hi [] h i = tt
    weaken lo hi (x ∷ xs) h i = (omega arith, i.1)

played-IsIncreasingFrom :
    (calls : List Call) (b : JitterBuffer) (lo : ℕ)
    → IsValid b
    → IsWire calls
    → IsPast b lo
    → IsIncreasingFrom lo (played b calls)
unfolding played
played-IsIncreasingFrom [] b lo v w past = tt
played-IsIncreasingFrom (arrives p ∷ rest) b lo v w past =
    played-IsIncreasingFrom rest (push b p).0 lo (push-IsValid b p v w.0) w.1
      (push-IsPast b p lo v w.0 past)
played-IsIncreasingFrom (pops ∷ rest) b lo v w past = elim (pop_ready_cases b v) [
  | inl e ↦ rw e (played-IsIncreasingFrom rest b lo v w past)
  | inr (s, e, f) ↦ rw f (
      prepend-IsIncreasingFrom b lo s (played (popped b s) rest)
        (subst (λ o. IsFrom o b.packets) e v.ordered) (past-le b lo s past e)
        (played-IsIncreasingFrom rest (popped b s) (suc s) (popped-IsValid b s v e) w
          (inr (s + 1, refl, refl, omega arith))))
]

-- However packets arrive, late, twice or out of order, and however arrivals and pops mix: the
-- packets that a new buffer plays carry strictly rising sequence numbers, as long as none carries
-- the last 64-bit number.
pub played-new :
    (target_ms : ℕ) (calls : List Call)
    → IsWire calls
    → IsIncreasingFrom 0 (played (new target_ms) calls)
unfolding new
played-new target_ms calls w =
    played-IsIncreasingFrom calls (new target_ms) 0 (new-IsValid target_ms) w (inl (refl, refl))

run-IsValid :
    (b : JitterBuffer) (calls : List Call) → IsValid b → IsWire calls → IsValid (run b calls)
run-IsValid b [] v w = v
run-IsValid b (arrives p ∷ rest) v w = run-IsValid (push b p).0 rest (push-IsValid b p v w.0) w.1
run-IsValid b (pops ∷ rest) v w = run-IsValid (pop_ready b).0 rest (pop_ready-IsValid b v) w

max_packets-push : (b : JitterBuffer) (p : AudioPacket) → (push b p).0.max_packets ≡ b.max_packets
unfolding push
max_packets-push b p = ground arith

max_packets-pop_ready : (b : JitterBuffer) → IsValid b → (pop_ready b).0.max_packets ≡ b.max_packets
max_packets-pop_ready b v = elim (pop_ready_cases b v) [
  | inl e ↦ rw e refl
  | inr (s, e, f) ↦ rw f refl
]

max_packets-run :
    (b : JitterBuffer) (calls : List Call)
    → IsValid b
    → IsWire calls
    → (run b calls).max_packets ≡ b.max_packets
max_packets-run b [] v w = refl
max_packets-run b (arrives p ∷ rest) v w =
    max_packets-run (push b p).0 rest (push-IsValid b p v w.0) w.1 ∙ max_packets-push b p
max_packets-run b (pops ∷ rest) v w =
    max_packets-run (pop_ready b).0 rest (pop_ready-IsValid b v) w ∙ max_packets-pop_ready b v

max_packets-new : (target_ms : ℕ) → (new target_ms).max_packets ≤ 96
unfolding new
max_packets-new target_ms = omega arith

-- A new buffer never holds more than 96 packets, however arrivals and pops mix, as long as no packet
-- carries the last 64-bit sequence number.
pub length-run :
    (target_ms : ℕ) (calls : List Call)
    → IsWire calls
    → length (run (new target_ms) calls).packets ≤ 96
length-run target_ms calls w = omega (
  arith,
  (run-IsValid (new target_ms) calls (new-IsValid target_ms) w).bounded,
  max_packets-run (new target_ms) calls (new-IsValid target_ms) w,
  max_packets-new target_ms,
)
