-- ===== src/Audio/Packet/RoundTrip.antt =====
-- A sealed datagram opens to the packet, in its own session only.
use mouse_without_borders.Base.{
  ℕ, ◌+◌, ◌≤◌, ◌<◌, ◌≡◌, ◌≢◌, refl, ap, ◌∙◌, sym, some, List, ◌∷◌, ◌++◌, length, take, drop, ok,
  err, arith, length-append, drop-drop, take-append, drop-append, Option-cases, ◌↔◌, inl, inr,
  subst,
}
use mathlib.Core.List.{append_assoc}
use mouse_without_borders.Base.Bytes.{
  be16, be32, be64, from_be, bytes_eq_refl, bytes_eq→eq, u32_mod, u64_mod, from_be-be32,
  from_be-be64, length-be64,
}
use mouse_without_borders.Audio.Packet.{
  wrong_session, oversized, AudioPacket, SessionSecrets, Aead, header, nonce, seal, open_datagram,
  max_datagram_bytes, header_len, magic, byte_at,
}

-- What an AEAD cipher documents: decryption undoes encryption, and the tag is 16 bytes.
pub record AeadLaws (aead : Aead) : Type 0 where
  pub decrypt-encrypt :
      (key nonce aad message sealed : List ℕ)
      → aead.encrypt key nonce aad message ≡ some sealed
      → aead.decrypt key nonce aad sealed ≡ some message
  pub length-encrypt :
      (key nonce aad message sealed : List ℕ)
      → aead.encrypt key nonce aad message ≡ some sealed
      → length sealed ≡ length message + 16

-- The widths of the fields on the wire.
pub record IsWire (packet : AudioPacket) : Type 0 where
  pub sequence_u64 : packet.sequence < u64_mod
  pub timestamp_u32 : packet.sample_timestamp < u32_mod

-- The header, up to a session id of 16 bytes, and what follows it.
take_id : (id rest : List ℕ) → length id ≡ 16 → take 16 (id ++ rest) ≡ id
take_id id rest h = subst (λ n. take n (id ++ rest) ≡ id) h (take-append id rest)

drop_id : (id rest : List ℕ) → length id ≡ 16 → drop 16 (id ++ rest) ≡ rest
drop_id id rest h = subst (λ n. drop n (id ++ rest) ≡ rest) h (drop-append id rest)

-- A datagram with its first 8 bytes, the session id, the 12 bytes of the counters and the rest.
abbrev framed : ℕ → List ℕ → ℕ → ℕ → List ℕ → List ℕ
framed flags id sequence timestamp rest =
    magic ++ (1 ∷ flags ∷ (be16 header_len ++ (id ++ (be64 sequence ++ (be32 timestamp ++ rest)))))

header-framed :
    (secrets : SessionSecrets) (sequence timestamp flags : ℕ) (rest : List ℕ)
    → header secrets sequence timestamp flags ++ rest
      ≡ framed flags secrets.session_id sequence timestamp rest
unfolding header be64
header-framed secrets sequence timestamp flags rest =
    ap (λ l. 69 ∷ 75 ∷ 65 ∷ 49 ∷ 1 ∷ flags ∷ 0 ∷ 36 ∷ l)
      (append_assoc secrets.session_id (be64 sequence ++ be32 timestamp) rest)

-- How the fields lie in a datagram.
record IsLaidOut (d : List ℕ) (flags : ℕ) (id aad : List ℕ) (sequence timestamp : ℕ) (rest : List ℕ)
    : Type 0 where
  size : length d ≡ header_len + length rest
  marked : take 4 d ≡ magic
  versioned : byte_at 4 d ≡ 1
  flagged : byte_at 5 d ≡ flags
  sized : from_be 0 (take 2 (drop 6 d)) ≡ header_len
  identified : take 16 (drop 8 d) ≡ id
  sequenced : from_be 0 (take 8 (drop 24 d)) ≡ sequence
  stamped : from_be 0 (take 4 (drop 32 d)) ≡ timestamp
  front : take header_len d ≡ aad
  back : drop header_len d ≡ rest

open_laid_out :
    (aead : Aead) (secrets : SessionSecrets) (d : List ℕ) (aad rest : List ℕ) (packet : AudioPacket)
    → IsLaidOut d packet.flags secrets.session_id aad packet.sequence packet.sample_timestamp rest
    → 16 ≤ length rest
    → length d ≤ max_datagram_bytes
    → aead.decrypt secrets.session_key (nonce secrets packet.sequence) aad rest
      ≡ some packet.payload
    → open_datagram aead secrets d ≡ ok packet
unfolding open_datagram
open_laid_out aead secrets d aad rest packet l long short opened =
    ground (arith, bytes_eq_refl magic, bytes_eq_refl secrets.session_id)

drop_past_id :
    (n : ℕ) (id rest : List ℕ) → length id ≡ 16 → drop (16 + n) (id ++ rest) ≡ drop n rest
drop_past_id n id rest h = sym (drop-drop 16 n (id ++ rest)) ∙ ap (drop n) (drop_id id rest h)

length-header :
    (secrets : SessionSecrets) (sequence timestamp flags : ℕ)
    → length secrets.session_id ≡ 16
    → length (header secrets sequence timestamp flags) ≡ header_len
unfolding header
length-header secrets sequence timestamp flags h = omega (
  arith,
  length-be64 sequence,
  length-append (be64 sequence) (be32 timestamp),
  length-append secrets.session_id (be64 sequence ++ be32 timestamp),
)

take-header :
    (secrets : SessionSecrets) (sequence timestamp flags : ℕ) (rest : List ℕ)
    → length secrets.session_id ≡ 16
    → take header_len (framed flags secrets.session_id sequence timestamp rest)
      ≡ header secrets sequence timestamp flags
take-header secrets sequence timestamp flags rest h =
    let front = header secrets sequence timestamp flags in
    subst (λ l. take header_len l ≡ front) (header-framed secrets sequence timestamp flags rest)
      (subst (λ n. take n (front ++ rest) ≡ front)
        (length-header secrets sequence timestamp flags h) (take-append front rest))

framed-IsLaidOut :
    (secrets : SessionSecrets) (sequence timestamp flags : ℕ) (rest : List ℕ)
    → length secrets.session_id ≡ 16
    → sequence < u64_mod
    → timestamp < u32_mod
    → IsLaidOut
        (framed flags secrets.session_id sequence timestamp rest)
        flags
        secrets.session_id
        (header secrets sequence timestamp flags)
        sequence
        timestamp
        rest
unfolding from_be be64
framed-IsLaidOut secrets sequence timestamp flags rest h hs ht =
    let id = secrets.session_id in
    let tail = be64 sequence ++ (be32 timestamp ++ rest) in
    record {
      size = omega (arith, length-append id tail);
      marked = refl;
      versioned = refl;
      flagged = omega arith;
      sized = refl;
      identified = take_id id tail h;
      sequenced = ap (λ l. from_be 0 (take 8 l)) (drop_id id tail h) ∙ from_be-be64 sequence hs;
      stamped =
          ap (λ l. from_be 0 (take 4 l)) (drop_past_id 8 id tail h) ∙ from_be-be32 timestamp ht;
      front = take-header secrets sequence timestamp flags rest h;
      back = drop_past_id 12 id tail h;
    }

-- What `seal` answers when it succeeds.
abbrev Sealed : Aead → SessionSecrets → AudioPacket → List ℕ → Type 0
Sealed aead secrets packet datagram =
    (encrypted : List ℕ) × (aead.encrypt secrets.session_key (nonce secrets packet.sequence)
        (header secrets packet.sequence packet.sample_timestamp packet.flags) packet.payload
      ≡ some encrypted)
    × (datagram ≡ header secrets packet.sequence packet.sample_timestamp packet.flags ++ encrypted)
    × (length datagram ≤ max_datagram_bytes)

seal-Sealed :
    (aead : Aead) (secrets : SessionSecrets) (packet : AudioPacket) {datagram : List ℕ}
    → seal aead secrets packet ≡ ok datagram
    → Sealed aead secrets packet datagram
unfolding seal
seal-Sealed aead secrets packet e =
    elim (Option-cases (
      aead.encrypt secrets.session_key (nonce secrets packet.sequence)
        (header secrets packet.sequence packet.sample_timestamp packet.flags) packet.payload)) [
          | inl bad ↦ absurd (ground arith)
          | inr (encrypted, good) ↦ (encrypted, good, ground arith, ground arith)
        ]

-- The layout of a sealed datagram.
Sealed-IsLaidOut :
    (aead : Aead) (secrets : SessionSecrets) (packet : AudioPacket) (datagram : List ℕ)
    → length secrets.session_id ≡ 16
    → IsWire packet
    → (s : Sealed aead secrets packet datagram)
    → IsLaidOut datagram packet.flags secrets.session_id
        (header secrets packet.sequence packet.sample_timestamp packet.flags)
        packet.sequence
        packet.sample_timestamp
        s.0
Sealed-IsLaidOut aead secrets packet datagram h w (encrypted, good, made, short) =
    rw (made ∙ header-framed secrets packet.sequence packet.sample_timestamp packet.flags encrypted)
      (framed-IsLaidOut secrets packet.sequence packet.sample_timestamp packet.flags encrypted h
        w.sequence_u64 w.timestamp_u32)

module _ (aead : Aead) (laws : AeadLaws aead) where
  -- A packet that is sealed in a session opens to itself there, with a session id of 16 bytes and
  -- the counters within their width.
  pub open_datagram-seal :
      (secrets : SessionSecrets) (packet : AudioPacket) (datagram : List ℕ)
      → length secrets.session_id ≡ 16
      → IsWire packet
      → seal aead secrets packet ≡ ok datagram
      → open_datagram aead secrets datagram ≡ ok packet
  open_datagram-seal secrets packet datagram h w e =
      let s = seal-Sealed aead secrets packet e in
      let aad = header secrets packet.sequence packet.sample_timestamp packet.flags in
      let key = secrets.session_key in
      let n = nonce secrets packet.sequence in
      open_laid_out aead secrets datagram aad s.0 packet
        (Sealed-IsLaidOut aead secrets packet datagram h w s)
        (omega (arith, laws.length-encrypt key n aad packet.payload s.0 s.1)) s.3
        (laws.decrypt-encrypt key n aad packet.payload s.0 s.1)

  -- A datagram sealed in one session is refused as `WrongSession` in a session with another id.
  pub open_datagram_other_session :
      (secrets other : SessionSecrets) (packet : AudioPacket) (datagram : List ℕ)
      → length secrets.session_id ≡ 16
      → IsWire packet
      → other.session_id ≢ secrets.session_id
      → seal aead secrets packet ≡ ok datagram
      → open_datagram aead other datagram ≡ err wrong_session
  unfolding open_datagram
  open_datagram_other_session secrets other packet datagram h w ne e =
      let s = seal-Sealed aead secrets packet e in
      let aad = header secrets packet.sequence packet.sample_timestamp packet.flags in
      let l = Sealed-IsLaidOut aead secrets packet datagram h w s in
      let long =
        laws.length-encrypt secrets.session_key (nonce secrets packet.sequence) aad packet.payload
          s.0 s.1 in
      ground (arith, l, long, bytes_eq_refl magic, bytes_eq→eq secrets.session_id other.session_id)

  -- If the cipher encrypts the payload, with a session id of 16 bytes, then sealing fails for its
  -- size exactly if the payload is over 1148 bytes.
  pub seal_oversized_iff :
      (secrets : SessionSecrets) (packet : AudioPacket) (encrypted : List ℕ)
      → length secrets.session_id ≡ 16
      → aead.encrypt secrets.session_key
          (nonce secrets packet.sequence)
          (header secrets packet.sequence packet.sample_timestamp packet.flags)
          packet.payload
        ≡ some encrypted
      → (seal aead secrets packet ≡ err oversized) ↔ (1148 < length packet.payload)
  unfolding seal
  seal_oversized_iff secrets packet encrypted h e =
      let aad = header secrets packet.sequence packet.sample_timestamp packet.flags in
      ground (
        arith,
        e,
        length-append aad encrypted,
        length-header secrets packet.sequence packet.sample_timestamp packet.flags h,
        laws.length-encrypt secrets.session_key (nonce secrets packet.sequence) aad packet.payload
            encrypted e,
      )
