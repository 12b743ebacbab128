-- ===== src/Audio/Packet.antt =====
-- Authenticated audio datagrams (crates/edge-audio/src/lib.rs: `AudioPacket`, `PacketCipher`). The
-- cipher of the crate `chacha20poly1305` is the record `Aead`.
pub mod RoundTrip
use mouse_without_borders.Base.{
  ℕ, ◌+◌, ltb, ◌==◌, not, ◌||◌, Bool, Option, none, some, List, [], ◌∷◌, ◌++◌, length, take, drop,
  if◌then◌else◌, Result, ok, err, ◌>>=◌, ◌>>◌, fail_if, ok_or,
}
use mouse_without_borders.Base.Bytes.{be16, be32, be64, from_be, bytes_eq}

abbrev pub max_datagram_bytes : ℕ
max_datagram_bytes = 1200

-- b"EKA1".
abbrev pub magic : List ℕ
magic = 69 ∷ 75 ∷ 65 ∷ 49 ∷ []

abbrev pub version : ℕ
version = 1

abbrev pub header_len : ℕ
header_len = 36

pub data AudioError : Type 0 where
  truncated invalid_packet wrong_session oversized authentication : AudioError

pub record SessionSecrets : Type 0 where
  pub session_id : List ℕ  -- 16 bytes
  pub session_salt : List ℕ  -- 4 bytes
  pub session_key : List ℕ  -- 32 bytes

pub record AudioPacket : Type 0 where
  pub sequence : ℕ  -- u64
  pub sample_timestamp : ℕ  -- u32
  pub flags : ℕ  -- u8
  pub payload : List ℕ

-- `encrypt` and `decrypt` take the key, the nonce, the associated data and the message.
pub record Aead : Type 0 where
  pub encrypt : List ℕ → List ℕ → List ℕ → List ℕ → Option (List ℕ)
  pub decrypt : List ℕ → List ℕ → List ℕ → List ℕ → Option (List ℕ)

abbrev pub nonce : SessionSecrets → ℕ → List ℕ
nonce secrets sequence = secrets.session_salt ++ be64 sequence

-- The 36 bytes before the ciphertext, which are authenticated with it.
unfoldable pub header : SessionSecrets → ℕ → ℕ → ℕ → List ℕ
header secrets sequence sample_timestamp flags =
    magic
    ++ (version
        ∷ flags
        ∷ (be16 header_len ++ (secrets.session_id ++ (be64 sequence ++ be32 sample_timestamp))))

-- `datagram[a..b]`.
abbrev pub slice : ℕ → ℕ → List ℕ → List ℕ
slice from count xs = take count (drop from xs)

-- The byte at an index that is in range.
abbrev pub byte_at : ℕ → List ℕ → ℕ
byte_at i xs = from_be 0 (take 1 (drop i xs))

module _ (aead : Aead) where
  unfoldable pub seal_payload : SessionSecrets → ℕ → ℕ → ℕ → List ℕ → Result AudioError (List ℕ)
  seal_payload secrets sequence sample_timestamp flags payload = do
    let aad = header secrets sequence sample_timestamp flags
    encrypted ←
        ok_or (aead.encrypt secrets.session_key (nonce secrets sequence) aad payload) authentication
    let datagram = aad ++ encrypted
    fail_if (ltb max_datagram_bytes (length datagram)) oversized
    ok datagram

  unfoldable pub seal : SessionSecrets → AudioPacket → Result AudioError (List ℕ)
  unfolding seal_payload
  seal secrets packet =
      seal_payload secrets packet.sequence packet.sample_timestamp packet.flags packet.payload

  unfoldable pub open_datagram : SessionSecrets → List ℕ → Result AudioError AudioPacket
  open_datagram secrets datagram = do
    fail_if (ltb (length datagram) (header_len + 16)) truncated
    fail_if (ltb max_datagram_bytes (length datagram)) oversized
    fail_if (not (bytes_eq (take 4 datagram) magic) || not (byte_at 4 datagram == version))
        invalid_packet
    fail_if (not (from_be 0 (slice 6 2 datagram) == header_len)) invalid_packet
    fail_if (not (bytes_eq (slice 8 16 datagram) secrets.session_id)) wrong_session
    let sequence = from_be 0 (slice 24 8 datagram)
    let sample_timestamp = from_be 0 (slice 32 4 datagram)
    payload ←
        ok_or
          (aead.decrypt secrets.session_key (nonce secrets sequence) (take header_len datagram)
            (drop header_len datagram))
          authentication
    ok (record {
      sequence = sequence;
      sample_timestamp = sample_timestamp;
      flags = byte_at 5 datagram;
      payload = payload;
    })
