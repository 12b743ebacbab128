-- ===== src/Audio/Loss/Accounting.antt =====
-- Losses are reported once, and not too often.
use mouse_without_borders.Base.{
  ℕ, ◌+◌, ◌-◌, ◌≤◌, ◌≡◌, refl, false, ◌⊎◌, inl, inr, Bool-cases, Option, none, some, List, [], ◌∷◌,
  arith,
}
use mouse_without_borders.Audio.Loss.{
  PlaybackStatsSnapshot, AudioLossReport, AudioLossReporter, audio_loss_warning_interval,
  nothing_lost, report_of, is_early, check,
}

-- A look at the counters, at an instant.
abbrev pub Look : Type 0
Look = PlaybackStatsSnapshot × ℕ

-- The counters only grow, from `from` on.
abbrev pub IsGrowing : PlaybackStatsSnapshot → List Look → Type 0
IsGrowing from [] = Unit {0}
IsGrowing from ((s, now) ∷ rest) =
    (from.concealed_packets ≤ s.concealed_packets)
    × (from.dropped_output_frames ≤ s.dropped_output_frames)
    × IsGrowing s rest

abbrev pub report_run : AudioLossReporter → List Look → AudioLossReporter
report_run r [] = r
report_run r ((s, now) ∷ rest) = report_run (check r s now).0 rest

abbrev pub final : PlaybackStatsSnapshot → List Look → PlaybackStatsSnapshot
final s [] = s
final s ((s', now) ∷ rest) = final s' rest

abbrev concealed_of : Option AudioLossReport → ℕ
concealed_of none = 0
concealed_of (some r) = r.concealed_packets

abbrev dropped_of : Option AudioLossReport → ℕ
dropped_of none = 0
dropped_of (some r) = r.dropped_output_frames

-- The sums over all the reports.
unfoldable pub concealed : AudioLossReporter → List Look → ℕ
concealed r [] = 0
concealed r ((s, now) ∷ rest) = concealed_of (check r s now).1 + concealed (check r s now).0 rest

unfoldable pub dropped : AudioLossReporter → List Look → ℕ
dropped r [] = 0
dropped r ((s, now) ∷ rest) = dropped_of (check r s now).1 + dropped (check r s now).0 rest

-- The counters that were last reported are not ahead of the current ones.
abbrev pub IsBehind : AudioLossReporter → PlaybackStatsSnapshot → Type 0
IsBehind r s =
    (r.reported.concealed_packets ≤ s.concealed_packets)
    × (r.reported.dropped_output_frames ≤ s.dropped_output_frames)

check_accounts :
    (r : AudioLossReporter) (s : PlaybackStatsSnapshot) (now : ℕ)
    → IsBehind r s
    → IsBehind (check r s now).0 s
      × ((check r s now).0.reported.concealed_packets
          ≡ r.reported.concealed_packets + concealed_of (check r s now).1)
      × ((check r s now).0.reported.dropped_output_frames
          ≡ r.reported.dropped_output_frames + dropped_of (check r s now).1)
unfolding check
check_accounts r s now b = ground arith

-- Over any looks at growing counters, no loss is dropped or reported twice: the concealed packets
-- and the dropped frames of all reports, added up, are how far the reported counters moved, and
-- these never run ahead of the counters themselves.
pub reported-run :
    (r : AudioLossReporter) (s : PlaybackStatsSnapshot) (looks : List Look)
    → IsBehind r s
    → IsGrowing s looks
    → ((report_run r looks).reported.concealed_packets
        ≡ r.reported.concealed_packets + concealed r looks)
      × ((report_run r looks).reported.dropped_output_frames
          ≡ r.reported.dropped_output_frames + dropped r looks)
      × IsBehind (report_run r looks) (final s looks)
unfolding concealed dropped
reported-run r s [] b g = (omega arith, omega arith, b)
reported-run r s ((s', now) ∷ rest) b g =
    let a = check_accounts r s' now (omega (arith, b, g), omega (arith, b, g)) in
    let later = reported-run (check r s' now).0 s' rest a.0 g.2 in
    (omega (arith, a, later), omega (arith, a, later), later.2)

-- The instants of the reports.
abbrev at : Option AudioLossReport → ℕ → List ℕ → List ℕ
at none now xs = xs
at (some r) now xs = now ∷ xs

unfoldable pub warnings : AudioLossReporter → List Look → List ℕ
warnings r [] = []
warnings r ((s, now) ∷ rest) = at (check r s now).1 now (warnings (check r s now).0 rest)

abbrev pub IsSpacedAfter : Option ℕ → List ℕ → Type 0
IsSpacedAfter last [] = Unit {0}
IsSpacedAfter none (x ∷ xs) = IsSpacedAfter (some x) xs
IsSpacedAfter (some last) (x ∷ xs) =
    (audio_loss_warning_interval ≤ x - last) × IsSpacedAfter (some x) xs

-- A check reports nothing and changes nothing, or the last warning is not too recent and it is
-- this one from then on.
check_cases :
    (r : AudioLossReporter) (s : PlaybackStatsSnapshot) (now : ℕ)
    → (check r s now ≡ (r, none))
      ⊎ ((report : AudioLossReport) × (is_early r.last_warning now ≡ false)
          × (check r s now ≡ (record { reported = s; last_warning = some now }, some report)))
unfolding check
check_cases r s now = elim (Bool-cases (nothing_lost r s)) [
  | inl e ↦ inl (rw e refl)
  | inr e ↦ elim (Bool-cases (is_early r.last_warning now)) [
    | inl early ↦ inl (rw (e, early) refl)
    | inr late ↦ inr (report_of r s, late, rw (e, late) refl)
  ]
]

spaced-cons :
    (last : Option ℕ) (now : ℕ) (xs : List ℕ)
    → is_early last now ≡ false
    → IsSpacedAfter (some now) xs
    → IsSpacedAfter last (now ∷ xs)
spaced-cons none now xs e h = h
spaced-cons (some last) now xs e h = (ground arith, h)

-- Any two reports in a row are at least the warning interval apart.
pub warnings-IsSpacedAfter :
    (r : AudioLossReporter) (looks : List Look) → IsSpacedAfter r.last_warning (warnings r looks)
unfolding warnings
warnings-IsSpacedAfter r [] = tt
warnings-IsSpacedAfter r ((s, now) ∷ rest) = elim (check_cases r s now) [
  | inl e ↦ rw e (warnings-IsSpacedAfter r rest)
  | inr (report, late, e) ↦
      let after : AudioLossReporter = record { reported = s; last_warning = some now } in
      rw e (
        spaced-cons r.last_warning now (warnings after rest) late
          (warnings-IsSpacedAfter after rest))
]
