-- ===== src/Protocol/Heartbeat/Trip.antt =====
-- What the echo protocol guarantees.
use mouse_without_borders.Base.{
  ℕ, ◌-◌, ◌*◌, ◌≤◌, ◌≡◌, ◌≢◌, inl, inr, Option-cases, false, ◌||◌, none, some, List, [], ◌∷◌, arith,
  length, length-append, ◌++◌, refl, drop, ap,
}
use mouse_without_borders.Protocol.Frame.{Heartbeat}
use mouse_without_borders.Protocol.Heartbeat.{
  HeartbeatPing, waiting, too_soon, plain, settle, with_reply, push_sample, outgoing, incoming,
  max_samples, sum, round_trip,
}
use mouse_without_borders.Protocol.Heartbeat.Bits.{
  plain-with_request, plain-with_reply, asks_echo-with_request, is_reply-with_request,
  is_reply-with_reply,
}

-- The window keeps at most five samples.
pub length-push_sample :
    (samples : List ℕ) (trip : ℕ)
    → length samples ≤ max_samples
    → length (push_sample samples trip) ≤ max_samples
unfolding push_sample
length-push_sample [] trip h = omega arith
length-push_sample (x ∷ xs) trip h =
    ground (arith, length-append xs (trip ∷ []), length-append (x ∷ xs) (trip ∷ []))

-- The newest `n` of a list whose newest element is the last.
abbrev pub newest : ℕ → List ℕ → List ℕ
newest n xs = drop (length xs - n) xs

-- The newest elements are those behind the ones dropped.
newest-drop : (n k : ℕ) (xs : List ℕ) → length xs - n ≡ k → newest n xs ≡ drop k xs
newest-drop n k xs h = ap (λ m. drop m xs) h

-- A window that is not too long becomes the newest five of the old samples and the new one.
push_sample-newest :
    (samples : List ℕ) (trip : ℕ)
    → length samples ≤ max_samples
    → push_sample samples trip ≡ newest max_samples (samples ++ trip ∷ [])
unfolding push_sample
push_sample-newest [] trip h = refl
push_sample-newest (x ∷ xs) trip h = ground (
  arith,
  length-append xs (trip ∷ []),
  newest-drop max_samples 0 (x ∷ (xs ++ trip ∷ [])),
  newest-drop max_samples 1 (x ∷ (xs ++ trip ∷ [])),
)

-- A full exchange between two peers: the first peer asks at `sent`, the second answers whatever
-- its own state is, and the answer that arrives at `back` leaves the newest five of the first
-- peer's samples and the elapsed time after them, closes the exchange and is not echoed again, if
-- the first peer was not waiting for an answer, had not asked too soon before and had five samples
-- at most.
pub echo_round_trip :
    (ping peer : HeartbeatPing) (sequence sent there back : ℕ)
    → (waiting ping.pending sent || too_soon ping.last_asked sent) ≡ false
    → length ping.samples ≤ max_samples
    → let (asked, request) = outgoing ping sequence sent in
      let (peer', reply) = incoming peer request there in
      (peer' ≡ peer)
      × ((r : Heartbeat) × (reply ≡ some r)
          × (incoming asked r back ≡ (
            record asked {
              samples = newest max_samples (ping.samples ++ (back - sent) ∷ []);
              pending = none;
            },
            none,
          )))
unfolding outgoing incoming settle
echo_round_trip ping peer sequence sent there back h l = rw h (
  ground (
    arith,
    asks_echo-with_request sequence,
    is_reply-with_request sequence,
    plain-with_request sequence,
  ),
  (
    record { sequence = with_reply (plain sequence) },
    ground (
      arith,
      asks_echo-with_request sequence,
      is_reply-with_request sequence,
      plain-with_request sequence,
    ),
    ground (
      arith,
      is_reply-with_reply sequence,
      plain-with_reply sequence,
      push_sample-newest ping.samples (back - sent) l,
    ),
  ),
)

-- An echo that does not answer the pending request, or that arrives when none is pending, is
-- dropped: no state changes and no frame is sent.
pub stale_echo_dropped :
    (ping : HeartbeatPing) (sequence now : ℕ)
    → ((sent : ℕ) → ping.pending ≢ some (plain sequence, sent))
    → incoming ping (record { sequence = with_reply (plain sequence) }) now ≡ (ping, none)
unfolding incoming settle
stale_echo_dropped ping sequence now h = elim (Option-cases ping.pending) [
  | inl e ↦ ground (arith, is_reply-with_reply sequence)
  | inr ((p, sent), e) ↦
      ground (arith, is_reply-with_reply sequence, plain-with_reply sequence, h sent)
]

abbrev pub AllWithin : ℕ → ℕ → List ℕ → Type 0
AllWithin lo hi [] = Unit {0}
AllWithin lo hi (x ∷ xs) = (lo ≤ x) × (x ≤ hi) × AllWithin lo hi xs

sum_bounds :
    (lo hi : ℕ) (xs : List ℕ)
    → AllWithin lo hi xs
    → (lo * length xs ≤ sum xs) × (sum xs ≤ hi * length xs)
unfolding sum
sum_bounds lo hi [] h = omega arith
sum_bounds lo hi (x ∷ xs) h = omega (arith, sum_bounds lo hi xs h.2)

-- The reported round trip is an average: it lies between any bounds that hold for every sample.
pub round_trip_bounds :
    (ping : HeartbeatPing) (lo hi trip : ℕ)
    → AllWithin lo hi ping.samples
    → round_trip ping ≡ some trip
    → (lo ≤ trip) × (trip ≤ hi)
unfolding round_trip
round_trip_bounds ping lo hi trip h e = grind (arith, sum_bounds lo hi ping.samples h)
