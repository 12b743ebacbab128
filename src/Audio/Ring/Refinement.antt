-- ===== src/Audio/Ring/Refinement.antt =====
-- The ring is a bounded queue, until its 64-bit counters run out.
use mouse_without_borders.Base.{
  ℕ, zero, suc, ◌+◌, ◌-◌, ◌/◌, ◌%◌, ◌≤◌, ◌<◌, ◌≡◌, ◌≢◌, min, max, refl, ap, sym, ◌∙◌, none, some,
  List, [], ◌∷◌, ◌++◌, length, take, length-take, arith, Bool-cases, inl, inr, ◌==◌, ◌⊎◌,
}
use mouse_without_borders.Base.Bytes.{u64_mod}
use mouse_without_borders.Audio.Ring.{
  AudioRing, behind, update, write_slots, accepted, push_slice_aligned, pop,
}
use native.Mathlib.Nat.{div-mul-le_self, div-add-mod, mul-le-mul_left}
use mathlib.Core.List.{append-nil, append_assoc}
use native.Mathlib.Decide.{dec_le}

-- Two counters less than a turn apart have different slots.
slots_ne : (i j capacity : ℕ) → i < j → j < i + capacity → i % capacity ≢ j % capacity
slots_ne i j capacity lo hi e = elim (dec_le (j / capacity) (i / capacity)) [
  | yes h ↦
      omega (arith, div-add-mod i capacity, div-add-mod j capacity, mul-le-mul_left capacity h)
  | no h ↦
      let above : i / capacity + 1 ≤ j / capacity = omega arith in
      omega (arith, div-add-mod i capacity, div-add-mod j capacity, mul-le-mul_left capacity above)
]

module _ {S : Type 0} where
  -- The samples that wait: `n` of them, from the counter `at` on.
  pub window : (ℕ → S) → ℕ → ℕ → ℕ → List S
  window f capacity at zero = []
  window f capacity at (suc n) = f (at % capacity) ∷ window f capacity (at + 1) n

  -- The queue that a ring stands for.
  abbrev pub contents : AudioRing S → List S
  contents r = window r.samples r.capacity r.read (r.write - r.read)

  -- The counters are in order, at most a capacity apart, and have not wrapped.
  pub record IsValid (r : AudioRing S) : Type 0 where
    pub room : 0 < r.capacity
    pub ordered : r.read ≤ r.write
    pub fits : r.write ≤ r.read + r.capacity
    pub fresh : r.write < u64_mod

  window_snoc :
      (f : ℕ → S) (capacity at n : ℕ)
      → window f capacity at (suc n) ≡ window f capacity at n ++ f ((at + n) % capacity) ∷ []
  unfolding window
  window_snoc f capacity at zero =
      let e : at ≡ at + 0 = omega arith in ap (λ i. f (i % capacity) ∷ []) e
  window_snoc f capacity at (suc n) =
      let e : at + 1 + n ≡ at + suc n = omega arith in
      ap (λ l. f (at % capacity) ∷ l)
        (window_snoc f capacity (at + 1) n
          ∙ ap (λ i. window f capacity (at + 1) n ++ f (i % capacity) ∷ []) e)

  update_self : (f : ℕ → S) (i : ℕ) (s : S) → update f i s i ≡ s
  unfolding update
  update_self f i s = ground arith

  -- A write beyond the samples that wait, and less than a turn ahead, leaves them alone.
  window-update :
      (f : ℕ → S) (capacity at n w : ℕ) (s : S)
      → at + n ≤ w
      → w < at + capacity
      → window (update f (w % capacity) s) capacity at n ≡ window f capacity at n
  unfolding window update
  window-update f capacity at zero w s lo hi = refl
  window-update f capacity at (suc n) w s lo hi = ground (
    arith,
    slots_ne at w capacity,
    window-update f capacity (at + 1) n w s (omega arith) (omega arith),
  )

  window-write_slots :
      (xs : List S) (f : ℕ → S) (capacity at n w : ℕ)
      → w ≡ at + n
      → n + length xs ≤ capacity
      → w + length xs < u64_mod
      → window (write_slots f capacity w xs) capacity at (n + length xs)
        ≡ window f capacity at n ++ xs
  unfolding write_slots
  window-write_slots [] f capacity at n w e fits fresh =
      let z : n + 0 ≡ n = omega arith in
      ap (window f capacity at) z ∙ sym (append-nil (window f capacity at n))
  window-write_slots (s ∷ rest) f capacity at n w e fits fresh =
      let slot : w % u64_mod ≡ w = omega arith in
      let f' = update f (w % capacity) s in
      let count : n + suc (length rest) ≡ suc n + length rest = omega arith in
      let kept : window f' capacity at n ≡ window f capacity at n =
        window-update f capacity at n w s (omega arith) (omega arith) in
      let written : f' ((at + n) % capacity) ≡ s =
        ap (λ k. f' (k % capacity)) (sym e) ∙ update_self f (w % capacity) s in
      rw (slot, count)
        (window-write_slots rest f' capacity at (suc n) (w + 1) (omega arith) (omega arith)
            (omega arith)
          ∙ ap (λ l. l ++ rest)
              (window_snoc f' capacity at n
                ∙ ap (λ l. l ++ f' ((at + n) % capacity) ∷ []) kept
                ∙ ap (λ x. window f capacity at n ++ x ∷ []) written)
          ∙ append_assoc (window f capacity at n) (s ∷ []) rest)

  accepted-le :
      (r : AudioRing S) (wanted alignment : ℕ)
      → IsValid r
      → (accepted r wanted alignment ≤ wanted)
        × (accepted r wanted alignment + (r.write - r.read) ≤ r.capacity)
  accepted-le r wanted alignment v =
      let fit = div-mul-le_self (min wanted (r.capacity - behind r)) (max alignment 1) in
      (omega (arith, fit), omega (arith, fit, v.ordered, v.fits, v.fresh))

  -- A push on a valid ring appends what it accepts, a prefix of the input, to the contents, and the
  -- ring stays valid, as long as the write counter does not reach 64 bits.
  pub push_slice_aligned-contents :
      (r : AudioRing S) (input : List S) (alignment : ℕ)
      → IsValid r
      → r.write + length input < u64_mod
      → let (r', count) = push_slice_aligned r input alignment in
        (contents r' ≡ contents r ++ take count input) × (count ≤ length input) × IsValid r'
  unfolding push_slice_aligned
  push_slice_aligned-contents r input alignment v fresh =
      let count = accepted r (length input) alignment in
      let (le, room) = accepted-le r (length input) alignment v in
      let size : length (take count input) ≡ count = omega (arith, le, length-take count input) in
      let moved : (r.write + count) % u64_mod ≡ r.write + count = omega (arith, le) in
      let total : (r.write + count) % u64_mod - r.read
          ≡ r.write - r.read + length (take count input) =
        omega (arith, moved, size, v.ordered) in
      (
        ap (window (write_slots r.samples r.capacity r.write (take count input)) r.capacity r.read)
              total
            ∙ window-write_slots (take count input) r.samples r.capacity r.read (r.write - r.read)
                r.write (omega (arith, v.ordered)) (omega (arith, size, room))
                (omega (arith, size, le)),
        le,
        record {
          room = v.room;
          ordered = omega (arith, moved, v.ordered);
          fits = omega (arith, moved, room, v.ordered);
          fresh = omega (arith, moved, le);
        },
      )

  -- A pop on a valid ring takes the oldest sample, fails on the empty queue only and changes nothing
  -- then; the ring stays valid.
  pub pop-contents :
      (r : AudioRing S)
      → IsValid r
      → ((contents r ≡ []) × (pop r ≡ (r, none)))
        ⊎ ((s : S) × (r' : AudioRing S) × (pop r ≡ (r', some s))
            × (contents r ≡ s ∷ contents r')
            × IsValid r')
  unfolding pop window
  pop-contents r v = elim (Bool-cases (r.read == r.write)) [
    | inl e ↦
        let none_left : r.write - r.read ≡ 0 = ground arith in
        inl (ap (window r.samples r.capacity r.read) none_left, rw e)
    | inr e ↦
        let before : r.read < r.write = ground (arith, v.ordered) in
        let next : (r.read + 1) % u64_mod ≡ r.read + 1 = omega (arith, v.fresh) in
        let left : r.write - r.read ≡ suc (r.write - (r.read + 1)) = omega arith in
        let s = r.samples (r.read % r.capacity) in
        inr (
          s,
          record r { read = (r.read + 1) % u64_mod },
          rw e,
          ap (window r.samples r.capacity r.read) left
              ∙ ap (λ k. s ∷ window r.samples r.capacity k (r.write - k)) (sym next),
          record {
            room = v.room;
            ordered = omega (arith, next);
            fits = omega (arith, next, v.fits);
            fresh = v.fresh;
          },
        )
  ]
