-- ===== src/Examples/Audio.antt =====
-- A datagram, a reordered stream of packets, and a small ring.
use mouse_without_borders.Base.{
  ℕ, ◌+◌, ◌-◌, ◌≤◌, ◌≡◌, ◌≢◌, ◌⊎◌, refl, none, some, List, [], ◌∷◌, ◌++◌, length, length-append,
  take, ok, err, arith, take-append,
}
use mouse_without_borders.Base.Bytes.{be64}
use mouse_without_borders.Base.OrderedMap.{insert, get, remove}
use mouse_without_borders.Audio.Packet.{
  Aead, AudioPacket, SessionSecrets, seal, open_datagram, wrong_session, header,
}
use mouse_without_borders.Audio.Packet.RoundTrip.{
  AeadLaws, IsWire, open_datagram-seal, open_datagram_other_session,
}
use mouse_without_borders.Audio.Jitter
use mouse_without_borders.Audio.Jitter.Playout.{
  Call, arrives, pops, played, IsIncreasingFrom, played-new,
}
use mouse_without_borders.Audio.Loss
use mouse_without_borders.Audio.Loss.Accounting.{
  Look, report_run, concealed, dropped, IsBehind, warnings, reported-run,
}
use mouse_without_borders.Audio.Ring
use mouse_without_borders.Audio.Ring.Refinement.{
  contents, IsValid, push_slice_aligned-contents, pop-contents,
}

abbrev pub tag : List ℕ
tag = 0 ∷ 0 ∷ 0 ∷ 0 ∷ 0 ∷ 0 ∷ 0 ∷ 0 ∷ 0 ∷ 0 ∷ 0 ∷ 0 ∷ 0 ∷ 0 ∷ 0 ∷ 0 ∷ []

-- A cipher that only appends a tag.
abbrev toy : Aead
toy = record {
  encrypt = λ key nonce aad message. some (message ++ tag);
  decrypt = λ key nonce aad sealed. some (take (length sealed - 16) sealed);
}

pub tag_off : (message : List ℕ) → take (length (message ++ tag) - 16) (message ++ tag) ≡ message
tag_off message =
    let n : length (message ++ tag) - 16 ≡ length message =
      omega (arith, length-append message tag) in
    rw n (take-append message tag)

toy-AeadLaws : AeadLaws toy
toy-AeadLaws = record {
  decrypt-encrypt = λ key nonce aad message sealed h. ground (arith, tag_off message);
  length-encrypt = λ key nonce aad message sealed h. ground (arith, length-append message tag);
}

abbrev secrets : SessionSecrets
secrets = record { session_id = tag; session_salt = 1 ∷ 2 ∷ 3 ∷ 4 ∷ []; session_key = [] }

abbrev other : SessionSecrets
other = record secrets { session_id = 1 ∷ [] }

abbrev packet_of : ℕ → AudioPacket
packet_of n = record { sequence = n; sample_timestamp = 480; flags = 0; payload = 5 ∷ 6 ∷ [] }

packet-IsWire : IsWire (packet_of 3)
packet-IsWire = record { sequence_u64 = omega arith; timestamp_u32 = omega arith }

abbrev datagram : List ℕ
datagram = header secrets 3 480 0 ++ (5 ∷ 6 ∷ tag)

sealed : seal toy secrets (packet_of 3) ≡ ok datagram
unfolding seal header be64
sealed = refl

open_datagram-seal_example : open_datagram toy secrets datagram ≡ ok (packet_of 3)
open_datagram-seal_example =
    open_datagram-seal toy toy-AeadLaws secrets (packet_of 3) datagram refl packet-IsWire sealed

other_id : other.session_id ≢ secrets.session_id
other_id h = cc

open_datagram_other_session_example : open_datagram toy other datagram ≡ err wrong_session
open_datagram_other_session_example =
    open_datagram_other_session toy toy-AeadLaws secrets other (packet_of 3) datagram refl
      packet-IsWire other_id sealed

-- Packets that arrive late, twice and out of order, with a target of one packet.
abbrev calls : List Call
calls =
    arrives (packet_of 5)
    ∷ arrives (packet_of 4)
    ∷ pops
    ∷ arrives (packet_of 4)
    ∷ pops
    ∷ arrives (packet_of 6)
    ∷ arrives (packet_of 6)
    ∷ pops
    ∷ []

three_played : played (Jitter.new 5) calls ≡ 4 ∷ 5 ∷ 6 ∷ []
unfolding played Jitter.new Jitter.push Jitter.pop_ready insert get remove
three_played = refl

played-new_example : IsIncreasingFrom 0 (played (Jitter.new 5) calls)
played-new_example =
    played-new 5 calls (omega arith, (omega arith, (omega arith, (omega arith, (omega arith, tt)))))

abbrev ring : Ring.AudioRing ℕ
ring = record { samples = λ i. i; capacity = 4; read = 5; write = 7 }

ring-IsValid : IsValid ring
ring-IsValid = record {
  room = omega arith;
  ordered = omega arith;
  fits = omega arith;
  fresh = omega arith;
}

push_slice_aligned-contents_example :
    let (r, count) = Ring.push_slice_aligned ring (8 ∷ 9 ∷ 10 ∷ []) 2 in
    (contents r ≡ contents ring ++ take count (8 ∷ 9 ∷ 10 ∷ [])) × (count ≤ 3) × IsValid r
push_slice_aligned-contents_example =
    push_slice_aligned-contents ring (8 ∷ 9 ∷ 10 ∷ []) 2 ring-IsValid (omega arith)

pop-contents_example :
    ((contents ring ≡ []) × (Ring.pop ring ≡ (ring, none)))
    ⊎ ((s : ℕ) × (r : Ring.AudioRing ℕ) × (Ring.pop ring ≡ (r, some s))
        × (contents ring ≡ s ∷ contents r)
        × IsValid r)
pop-contents_example = pop-contents ring ring-IsValid

-- Counters that grow: one loss, another too soon to report, and both reported later.
abbrev snapshot : ℕ → ℕ → Loss.PlaybackStatsSnapshot
snapshot packets frames = record Loss.empty_snapshot {
  concealed_packets = packets;
  dropped_output_frames = frames;
}

abbrev looks : List Look
looks = (snapshot 1 0, 1000000000) ∷ (snapshot 3 0, 1100000000) ∷ (snapshot 4 7, 1300000000) ∷ []

two_warnings : warnings Loss.new looks ≡ 1000000000 ∷ 1300000000 ∷ []
unfolding warnings Loss.check
two_warnings = refl

reported-run_example :
    ((report_run Loss.new looks).reported.concealed_packets ≡ 0 + concealed Loss.new looks)
    × ((report_run Loss.new looks).reported.dropped_output_frames ≡ 0 + dropped Loss.new looks)
    × IsBehind (report_run Loss.new looks) (snapshot 4 7)
reported-run_example =
    reported-run Loss.new Loss.empty_snapshot looks (omega arith, omega arith)
      (omega arith, omega arith, (omega arith, omega arith, (omega arith, omega arith, tt)))
