-- ===== src/Audio/Jitter/Order.antt =====
-- The jitter buffer stays bounded and sorted, and plays packets in order.
use mouse_without_borders.Base.{
  ℕ, suc, ◌+◌, ◌-◌, ◌%◌, ◌≤◌, ◌<◌, ◌≡◌, refl, sym, subst, Bool, true, false, Option, none, some,
  List, [], ◌∷◌, length, arith, Option-cases, inl, inr, min, ltb, if◌then◌else◌, Bool-cases, ◌⊎◌,
}
use mouse_without_borders.Base.Bytes.{u64_mod}
use mouse_without_borders.Base.OrderedMap.{IsSortedFrom, insert, get, remove, last_key}
use mouse_without_borders.Base.OrderedMap.Laws.{
  IsSortedFrom-mono, insert-IsSortedFrom, remove-above, last_key_sound,
}
use mouse_without_borders.Audio.Packet.{AudioPacket}
use mouse_without_borders.Audio.Jitter.{
  JitterBuffer, new, trim, push, pop_ready, expected_next, refuses, is_late, earliest,
  get_or_insert,
}

-- An entry's key is its packet's sequence number, which leaves room for the next one.
abbrev pub IsEntry : ℕ → AudioPacket → Type 0
IsEntry k p = (p.sequence ≡ k) × (k + 1 < u64_mod)

abbrev pub IsQueue : ℕ → List (ℕ × AudioPacket) → Type 0
IsQueue = IsSortedFrom IsEntry

-- Where the packets of the buffer start.
abbrev pub IsFrom : Option ℕ → List (ℕ × AudioPacket) → Type 0
IsFrom none m = m ≡ []
IsFrom (some next) m = IsQueue next m

pub record IsValid (b : JitterBuffer) : Type 0 where
  pub room : 0 < b.max_packets
  pub bounded : length b.packets ≤ b.max_packets
  pub ordered : IsFrom b.next_sequence b.packets

-- The loop ends within the bound, and what is left starts at the next sequence number, which has
-- not moved back.
abbrev Trimmed : ℕ → ℕ → List (ℕ × AudioPacket) × Option ℕ → Type 0
Trimmed bound next r =
    (length r.0 ≤ bound) × ((n : ℕ) × (r.1 ≡ some n) × (next ≤ n) × IsQueue n r.0)

Trimmed-mono :
    (bound next next' : ℕ) (r : List (ℕ × AudioPacket) × Option ℕ)
    → next ≤ next'
    → Trimmed bound next' r
    → Trimmed bound next r
Trimmed-mono bound next next' r h (fits, (n, e, le, q)) = (fits, (n, e, omega arith, q))

trim-Trimmed :
    (bound next : ℕ) (m : List (ℕ × AudioPacket))
    → 0 < bound
    → IsQueue next m
    → Trimmed bound next (trim bound (some next) m)
unfolding trim
trim-Trimmed bound next [] pos s = (omega arith, (next, refl, omega arith, tt))
trim-Trimmed bound next ((j, p) ∷ []) pos s = elim (Bool-cases (ltb bound 1)) [
  | inl over ↦ absurd (ground arith)
  | inr fits ↦ rw fits (omega arith, (next, refl, omega arith, s))
]
trim-Trimmed bound next ((j, p) ∷ ((k, q) ∷ rest)) pos s =
    elim (Bool-cases (ltb bound (length ((j, p) ∷ ((k, q) ∷ rest))))) [
      | inl over ↦ rw over (
          Trimmed-mono bound next k (trim bound (some k) ((k, q) ∷ rest)) (omega arith)
            (trim-Trimmed bound k ((k, q) ∷ rest) pos (omega arith, s.2.1, s.2.2)))
      | inr fits ↦ rw fits (ground arith, (next, refl, omega arith, s))
    ]

expected_at :
    (started : Bool) (next : Option ℕ) (sequence : ℕ) (m : List (ℕ × AudioPacket))
    → IsFrom next m
    → (if started then is_late next sequence else false) ≡ false
    → let n = if started then get_or_insert next sequence else earliest next sequence in
      IsQueue n m × (n ≤ sequence)
expected_at true none sequence m f h = (subst (IsQueue sequence) (sym f) tt, omega arith)
expected_at false none sequence m f h = (subst (IsQueue sequence) (sym f) tt, omega arith)
expected_at true (some next) sequence m f h = (f, ground arith)
expected_at false (some next) sequence m f h =
    (IsSortedFrom-mono IsEntry next (min next sequence) m (omega arith) f, omega arith)

-- What is expected before the insertion, which keeps the queue from there on.
push-Trimmed :
    (b : JitterBuffer) (p : AudioPacket)
    → IsValid b
    → p.sequence + 1 < u64_mod
    → refuses b p.sequence ≡ false
    → Trimmed b.max_packets
        (expected_next b p.sequence)
        (trim b.max_packets (some (expected_next b p.sequence)) (insert p.sequence p b.packets))
push-Trimmed b p v w h =
    let n = expected_next b p.sequence in
    let (q, le) = expected_at b.started b.next_sequence p.sequence b.packets v.ordered h in
    trim-Trimmed b.max_packets n (insert p.sequence p b.packets) v.room
      (insert-IsSortedFrom IsEntry n p.sequence p b.packets le (refl, w) q)

-- Between two calls the buffer is within its bound, sorted, and starts at its next sequence number.
pub push-IsValid :
    (b : JitterBuffer) (p : AudioPacket)
    → IsValid b
    → p.sequence + 1 < u64_mod
    → IsValid (push b p).0
unfolding push
push-IsValid b p v w = elim (Bool-cases (refuses b p.sequence)) [
  | inl late ↦ rw late v
  | inr fresh ↦
      let (fits, (n, e, le, q)) = push-Trimmed b p v w fresh in
      rw fresh (record { room = v.room; bounded = fits; ordered = rw e q })
]

abbrev pub popped : JitterBuffer → ℕ → JitterBuffer
popped b s = record b { packets = remove s b.packets; next_sequence = some (s + 1); started = true }

-- A pop that is ready takes the next sequence number, whether or not its packet is there.
pub pop_ready_cases :
    (b : JitterBuffer)
    → IsValid b
    → (pop_ready b ≡ (b, none))
      ⊎ ((s : ℕ) × (b.next_sequence ≡ some s)
          × (pop_ready b ≡ (popped b s, some (get s b.packets))))
unfolding pop_ready
pop_ready_cases b v = elim (Option-cases b.next_sequence) [
  | inl e ↦ inl (ground arith)
  | inr (s, e) ↦ elim (Option-cases (last_key b.packets)) [
    | inl f ↦ inl (ground arith)
    | inr (highest, f) ↦
        let q : IsQueue s b.packets = subst (λ o. IsFrom o b.packets) e v.ordered in
        let (le, (p, entry)) = last_key_sound IsEntry s b.packets {k = highest} q f in
        elim (Bool-cases (ltb ((highest - s + 1) % u64_mod) b.target_packets)) [
          | inl early ↦ inl (ground arith)
          | inr ready ↦ inr (s, e, ground (arith, le, entry))
        ]
  ]
]

length-remove : (k : ℕ) (m : List (ℕ × AudioPacket)) → length (remove k m) ≤ length m
unfolding remove
length-remove k [] = omega arith
length-remove k ((j, p) ∷ rest) = ground (arith, length-remove k rest)

pub popped-IsValid :
    (b : JitterBuffer) (s : ℕ) → IsValid b → b.next_sequence ≡ some s → IsValid (popped b s)
popped-IsValid b s v e = record {
  room = v.room;
  bounded = omega (arith, v.bounded, length-remove s b.packets);
  ordered =
      let at : s + 1 ≡ suc s = omega arith in
      rw at (
        remove-above IsEntry s s b.packets (subst (λ o. IsFrom o b.packets) e v.ordered)
          (omega arith));
}

pub pop_ready-IsValid : (b : JitterBuffer) → IsValid b → IsValid (pop_ready b).0
pop_ready-IsValid b v = elim (pop_ready_cases b v) [
  | inl e ↦ rw e v
  | inr (s, e, f) ↦ rw f (popped-IsValid b s v e)
]

pub new-IsValid : (target_ms : ℕ) → IsValid (new target_ms)
unfolding new
new-IsValid target_ms = record { room = omega arith; bounded = omega arith; ordered = refl }

pub started-push : (b : JitterBuffer) (p : AudioPacket) → (push b p).0.started ≡ b.started
unfolding push
started-push b p = ground arith

-- A buffer that plays never goes back.
pub push_advances :
    (b : JitterBuffer) (p : AudioPacket) (m : ℕ)
    → IsValid b
    → p.sequence + 1 < u64_mod
    → b.started ≡ true
    → b.next_sequence ≡ some m
    → (n : ℕ) × ((push b p).0.next_sequence ≡ some n) × (m ≤ n)
unfolding push
push_advances b p m v w on e = elim (Bool-cases (refuses b p.sequence)) [
  | inl late ↦ rw late (m, e, omega arith)
  | inr fresh ↦
      let (fits, (n, f, le, q)) = push-Trimmed b p v w fresh in rw fresh (n, f, ground (arith, le))
]
