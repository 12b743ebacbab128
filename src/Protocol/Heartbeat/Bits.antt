-- ===== src/Protocol/Heartbeat/Bits.antt =====
-- The masks of `HeartbeatPing` on 64-bit sequences.
use mouse_without_borders.Base.{ℕ, ◌<◌, ◌≡◌, true, false, arith}
use mouse_without_borders.Base.Bytes.{u64_mod}
use mouse_without_borders.Protocol.Heartbeat.{plain, asks_echo, is_reply, with_request, with_reply}

-- Clearing twice clears once, also with a flag set in between, and the flags read back.
pub plain-plain : (s : ℕ) → plain (plain s) ≡ plain s
unfolding plain
plain-plain s = omega arith

pub plain-with_request : (s : ℕ) → plain (with_request (plain s)) ≡ plain s
unfolding plain
plain-with_request s = omega arith

pub plain-with_reply : (s : ℕ) → plain (with_reply (plain s)) ≡ plain s
unfolding plain
plain-with_reply s = omega arith

pub asks_echo-with_request : (s : ℕ) → asks_echo (with_request (plain s)) ≡ true
unfolding plain
asks_echo-with_request s = ground arith

pub is_reply-with_request : (s : ℕ) → is_reply (with_request (plain s)) ≡ false
unfolding plain
is_reply-with_request s = ground arith

pub is_reply-with_reply : (s : ℕ) → is_reply (with_reply (plain s)) ≡ true
unfolding plain
is_reply-with_reply s = ground arith

pub asks_echo-plain : (s : ℕ) → asks_echo (plain s) ≡ false
unfolding plain
asks_echo-plain s = ground arith

pub is_reply-plain : (s : ℕ) → is_reply (plain s) ≡ false
unfolding plain
is_reply-plain s = ground arith

-- The flagged sequence is again a u64.
pub with_request-lt : (s : ℕ) → s < u64_mod → with_request (plain s) < u64_mod
unfolding plain
with_request-lt s h = omega arith
