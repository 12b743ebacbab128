-- ===== src/Crypto/Noise.antt =====
-- Encrypted packets on a byte stream (crates/edge-crypto/src/lib.rs: `seal_packet`, `read_packet`,
-- `NoiseSession`). The transport of the crate `snow` is the record `Transport`; the stream is the
-- list of the bytes not yet read, and a read past its end is the error `ended`. A write to the
-- stream that fails is left out.
pub mod Delivery
use mouse_without_borders.Base.{
  ℕ, ◌+◌, min, ltb, List, ◌++◌, length, take, drop, if◌then◌else◌, Result, ok, err,
}
use mouse_without_borders.Base.Bytes.{be32, from_be, u32_mod}

abbrev pub max_noise_packet_bytes : ℕ
max_noise_packet_bytes = 65535

abbrev pub noise_tag_bytes : ℕ
noise_tag_bytes = 16

abbrev pub length_prefix_bytes : ℕ
length_prefix_bytes = 4

-- `snow::TransportState`: a message is encrypted or decrypted and the nonce moves on.
pub record Transport : Type 1 where
  pub State : Type 0
  pub SnowError : Type 0
  pub write_message : State → List ℕ → State × Result SnowError (List ℕ)
  pub read_message : State → List ℕ → State × Result SnowError (List ℕ)

pub data CryptoError (E : Type 0) : Type 0 where
  packet_too_large : ℕ → CryptoError E
  noise_error : E → CryptoError E
  ended : CryptoError E

-- `u32::try_from(len).unwrap_or(u32::MAX)`.
abbrev pub too_large : {E : Type 0} → ℕ → CryptoError E
too_large len = packet_too_large (min 4294967295 len)

-- The prefix and the message, once it is encrypted.
abbrev pub prefixed : {E : Type 0} → Result E (List ℕ) → Result (CryptoError E) (List ℕ)
prefixed (ok sealed) = ok (be32 (length sealed) ++ sealed)
prefixed (err e) = err (noise_error e)

-- `read_u32` and `read_exact`: the packet and the bytes after it.
unfoldable pub read_packet : {E : Type 0} → List ℕ → Result (CryptoError E) (List ℕ × List ℕ)
read_packet stream =
    if ltb (length stream) length_prefix_bytes
    then err ended
    else let len = from_be 0 (take length_prefix_bytes stream) in
      let rest = drop length_prefix_bytes stream in
      if ltb max_noise_packet_bytes len
      then err (packet_too_large len)
      else if ltb (length rest) len
      then err ended
      else ok (take len rest, drop len rest)

abbrev pub decrypted :
    {E : Type 0} → List ℕ → Result E (List ℕ) → Result (CryptoError E) (List ℕ × List ℕ)
decrypted rest (ok plaintext) = ok (plaintext, rest)
decrypted rest (err e) = err (noise_error e)

module _ (tr : Transport) where
  open tr use {State, SnowError, write_message, read_message}

  -- `seal_packet`, whose output `NoiseSession::write_packet` writes to the stream.
  unfoldable pub seal_packet : State → List ℕ → State × Result (CryptoError SnowError) (List ℕ)
  seal_packet t plaintext =
      let sealed_len = length plaintext + noise_tag_bytes in
      if ltb max_noise_packet_bytes sealed_len
      then (t, err (too_large sealed_len))
      else ((write_message t plaintext).0, prefixed (write_message t plaintext).1)

  -- `NoiseSession::read_packet`.
  unfoldable pub receive_packet :
      State → List ℕ → State × Result (CryptoError SnowError) (List ℕ × List ℕ)
  receive_packet t stream = elim (read_packet {E = SnowError} stream) [
    | err e ↦ (t, err e)
    | ok p ↦ ((read_message t p.0).0, decrypted p.1 (read_message t p.0).1)
  ]
