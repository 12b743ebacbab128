-- ===== src/Audio/Ring.antt =====
-- The single-producer, single-consumer ring of output samples
-- (crates/edge-audio-output/src/lib.rs: `AudioRing`). The producer and the consumer each perform
-- one call at a time; a call is one step here. Samples are of any type; the counters wrap at 64
-- bits. The slots are a function of the index, which the code keeps below the capacity.
pub mod Refinement
use mouse_without_borders.Base.{
  ℕ, ◌+◌, ◌-◌, ◌*◌, ◌/◌, ◌%◌, min, max, ◌==◌, Option, none, some, List, [], ◌∷◌, length, take,
  if◌then◌else◌,
}
use mouse_without_borders.Base.Bytes.{u64_mod}

pub record AudioRing (S : Type 0) : Type 0 where
  pub samples : ℕ → S
  pub capacity : ℕ  -- usize
  pub read : ℕ  -- usize
  pub write : ℕ  -- usize

module _ {S : Type 0} where
  unfoldable pub new : S → ℕ → AudioRing S
  new silence capacity = record {
    samples = λ _. silence;
    capacity = max capacity 2;
    read = 0;
    write = 0;
  }

  -- `write.wrapping_sub(read)`.
  abbrev pub behind : AudioRing S → ℕ
  behind r = (r.write + u64_mod - r.read) % u64_mod

  unfoldable pub len : AudioRing S → ℕ
  len r = min (behind r) r.capacity

  unfoldable pub update : (ℕ → S) → ℕ → S → ℕ → S
  update f i s j = if i == j then s else f j

  -- The `for` loop of `push_slice_aligned`, from the counter `at` on.
  unfoldable pub write_slots : (ℕ → S) → ℕ → ℕ → List S → ℕ → S
  unfolding update
  write_slots f capacity at [] = f
  write_slots f capacity at (s ∷ rest) =
      write_slots (update f (at % u64_mod % capacity) s) capacity (at + 1) rest

  abbrev pub accepted : AudioRing S → ℕ → ℕ → ℕ
  accepted r wanted alignment =
      min wanted (r.capacity - behind r) / max alignment 1 * max alignment 1

  unfoldable pub push_slice_aligned : AudioRing S → List S → ℕ → AudioRing S × ℕ
  push_slice_aligned r input alignment =
      let count = accepted r (length input) alignment in
      (
        record r {
          samples = write_slots r.samples r.capacity r.write (take count input);
          write = (r.write + count) % u64_mod;
        },
        count,
      )

  unfoldable pub pop : AudioRing S → AudioRing S × Option S
  pop r =
      if r.read == r.write
      then (r, none)
      else (record r { read = (r.read + 1) % u64_mod }, some (r.samples (r.read % r.capacity)))
