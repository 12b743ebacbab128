-- ===== src/Crypto/Noise/Delivery.antt =====
-- Messages arrive in order, and one that is too large does no harm.
use mouse_without_borders.Base.{
  ℕ, zero, suc, ◌+◌, ◌≤◌, ◌≡◌, refl, leb, Bool, true, false, List, [], ◌∷◌, ◌++◌, length,
  take-append, drop-append, length-append, arith, Bool-cases, inl, inr, if◌then◌else◌, Result, ok,
  err, ◌>>=◌, subst,
}
use mathlib.Core.List.{append_assoc}
use mouse_without_borders.Base.Bytes.{be32, from_be-be32}
use mouse_without_borders.Crypto.Noise.{
  Transport, CryptoError, too_large, seal_packet, read_packet, receive_packet, noise_tag_bytes,
  max_noise_packet_bytes,
}

-- What a transport documents. `Paired n w r`: `w` writes what `r` reads, and `n` more messages
-- may pass before the nonces run out.
pub record TransportLaws (tr : Transport) : Type 1 where
  pub Paired : ℕ → tr.State → tr.State → Type 0
  pub delivers :
      (n : ℕ) (w r : tr.State) (message : List ℕ)
      → Paired (suc n) w r
      → length message + noise_tag_bytes ≤ max_noise_packet_bytes
      → (w' : tr.State) × (r' : tr.State) × (sealed : List ℕ) × (tr.write_message w message
          ≡ (w', ok sealed))
        × (length sealed ≡ length message + noise_tag_bytes)
        × (tr.read_message r sealed ≡ (r', ok message))
        × Paired n w' r'

abbrev pub fits : List ℕ → Bool
fits message = leb (length message + noise_tag_bytes) max_noise_packet_bytes

-- The messages that are small enough.
abbrev pub fitting : List (List ℕ) → List (List ℕ)
fitting [] = []
fitting (m ∷ ms) = if fits m then m ∷ fitting ms else fitting ms

abbrev written : {E : Type 0} → Result E (List ℕ) → List ℕ → List ℕ
written (ok packet) later = packet ++ later
written (err e) later = later

-- A packet is read back from the front of a stream.
read_packet-prefix :
    {E : Type 0} (sealed rest : List ℕ)
    → length sealed ≤ max_noise_packet_bytes
    → read_packet {E = E} ((be32 (length sealed) ++ sealed) ++ rest) ≡ ok (sealed, rest)
unfolding read_packet
read_packet-prefix sealed rest h = ground (
  arith,
  from_be-be32 (length sealed),
  take-append sealed rest,
  drop-append sealed rest,
  length-append sealed rest,
)

module _ (tr : Transport) where
  open tr use {State, SnowError}

  -- The bytes that a sequence of `write_packet` puts on the stream; a refused message puts none.
  unfoldable pub sent : State → List (List ℕ) → List ℕ
  sent w [] = []
  sent w (m ∷ ms) = written (seal_packet tr w m).1 (sent (seal_packet tr w m).0 ms)

  unfoldable pub receive_all :
      State → ℕ → List ℕ → Result (CryptoError SnowError) (List (List ℕ) × List ℕ)
  receive_all r zero stream = ok ([], stream)
  receive_all r (suc n) stream = do
    first ← (receive_packet tr r stream).1
    later ← receive_all (receive_packet tr r stream).0 n first.1
    ok (first.0 ∷ later.0, later.1)

  seal_packet_fits :
      (w w' : tr.State) (m sealed : List ℕ)
      → length m + noise_tag_bytes ≤ max_noise_packet_bytes
      → tr.write_message w m ≡ (w', ok sealed)
      → seal_packet tr w m ≡ (w', ok (be32 (length sealed) ++ sealed))
  unfolding seal_packet
  seal_packet_fits w w' m sealed h e = ground (arith, e)

  seal_packet_refuses :
      (w : tr.State) (m : List ℕ)
      → fits m ≡ false
      → seal_packet tr w m ≡ (w, err (too_large (length m + noise_tag_bytes)))
  unfolding seal_packet
  seal_packet_refuses w m h = ground arith

  receive_packet_front :
      (r r' : tr.State) (m sealed stream : List ℕ)
      → length sealed ≤ max_noise_packet_bytes
      → tr.read_message r sealed ≡ (r', ok m)
      → receive_packet tr r ((be32 (length sealed) ++ sealed) ++ stream) ≡ (r', ok (m, stream))
  unfolding receive_packet
  receive_packet_front r r' m sealed stream h e =
      rw (receive_packet, read_packet-prefix {E = tr.SnowError} sealed stream h) (rw e refl)

module _ (tr : Transport) (laws : TransportLaws tr) where
  open laws use {Paired, delivers}

  -- Over two paired transports with nonces left for them, the messages that fit arrive in order and
  -- unchanged, and the bytes after them are left on the stream; a message that is too large is
  -- refused without disturbing the others.
  pub receive_all-sent :
      (ms : List (List ℕ)) (w r : tr.State) (rest : List ℕ)
      → Paired (length (fitting ms)) w r
      → receive_all tr r (length (fitting ms)) (sent tr w ms ++ rest) ≡ ok (fitting ms, rest)
  unfolding receive_all sent
  receive_all-sent [] w r rest p = refl
  receive_all-sent (m ∷ ms) w r rest p = elim (Bool-cases (fits m)) [
    | inl small ↦
        let (w', r', sealed, wrote, size, reads, next) =
          delivers (length (fitting ms)) w r m
            (subst (λ b. Paired (length (if b then m ∷ fitting ms else fitting ms)) w r) small p)
            (ground arith) in
        let packet = be32 (length sealed) ++ sealed in
        let front =
          receive_packet_front tr r r' m sealed (sent tr w' ms ++ rest)
            (omega (arith, size, small_le small)) reads in
        rw
          (
            small,
            seal_packet_fits tr w w' m sealed (ground arith) wrote,
            append_assoc packet (sent tr w' ms) rest,
            front,
          )
          (rw (receive_all-sent ms w' r' rest next) refl)
    | inr large ↦
        rw (large, seal_packet_refuses tr w m large)
          (receive_all-sent ms w r rest
            (subst (λ b. Paired (length (if b then m ∷ fitting ms else fitting ms)) w r) large p))
  ]
    where
      small_le : fits m ≡ true → length m + noise_tag_bytes ≤ max_noise_packet_bytes
      small_le h = ground arith
