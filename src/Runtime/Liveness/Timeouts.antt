-- ===== src/Runtime/Liveness/Timeouts.antt =====
-- When the tracker reports a silent peer, and how often.
use mouse_without_borders.Base.{
  ℕ, ◌+◌, ◌-◌, ◌≤◌, ◌<◌, ◌≡◌, refl, ap, ◌∙◌, Bool, true, false, Option, none, some, List, [], ◌∷◌,
  arith, leb, ◌||◌, ◌&&◌, not, if◌then◌else◌,
}
use mouse_without_borders.Runtime.Liveness.{
  LivenessTracker, LivenessEvent, soft_input_timeout, hard_session_timeout, IsOrdered, elapsed,
  observe_authenticated_frame, poll,
}

-- With a soft timeout above zero, a poll reports it only while input is active, and only if for at
-- least that long the peer has sent nothing and the input has been active.
pub poll_soft_sound :
    (t : LivenessTracker) (now : ℕ) (input_active : Bool)
    → 0 < t.config.soft_input_timeout
    → (poll t now input_active).1 ≡ some soft_input_timeout
    → (input_active ≡ true)
      × (t.config.soft_input_timeout ≤ elapsed t now)
      × ((since : ℕ) × (t.input_active_since ≡ some since)
          × (t.config.soft_input_timeout ≤ now - since))
unfolding poll
poll_soft_sound t now input_active pos h = (ground arith, ground arith, ground arith)

-- What a session feeds its tracker.
pub data Call : Type 0 where
  frame_at : ℕ → Call
  poll_at : ℕ → Bool → Call

abbrev prepend : Option LivenessEvent → List LivenessEvent → List LivenessEvent
prepend none xs = xs
prepend (some e) xs = e ∷ xs

unfoldable pub reports : LivenessTracker → List Call → List LivenessEvent
reports t [] = []
reports t (frame_at now ∷ rest) = reports (observe_authenticated_frame t now) rest
reports t (poll_at now active ∷ rest) =
    let (t', e) = poll t now active in prepend e (reports t' rest)

-- Every poll comes less than the soft timeout after the last frame.
abbrev pub IsHealthy : ℕ → ℕ → List Call → Type 0
IsHealthy soft last [] = Unit {0}
IsHealthy soft last (frame_at now ∷ rest) = IsHealthy soft now rest
IsHealthy soft last (poll_at now active ∷ rest) = (now - last < soft) × IsHealthy soft last rest

poll_healthy :
    (t : LivenessTracker) (now : ℕ) (input_active : Bool)
    → IsOrdered t.config
    → elapsed t now < t.config.soft_input_timeout
    → ((poll t now input_active).1 ≡ none)
      × ((poll t now input_active).0.config ≡ t.config)
      × ((poll t now input_active).0.last_authenticated_activity ≡ t.last_authenticated_activity)
unfolding poll
poll_healthy t now input_active o h = ground arith

-- With a soft timeout below the hard one, a peer is never reported if every poll comes less than the
-- soft timeout after its last frame, however input starts and stops meanwhile.
pub reports_healthy :
    (soft hard last : ℕ) (calls : List Call) (t : LivenessTracker)
    → t.config.soft_input_timeout ≡ soft
    → t.config.hard_session_timeout ≡ hard
    → soft < hard
    → t.last_authenticated_activity ≡ last
    → IsHealthy soft last calls
    → reports t calls ≡ []
unfolding reports observe_authenticated_frame
reports_healthy soft hard last [] t cs ch o l h = refl
reports_healthy soft hard last (frame_at now ∷ rest) t cs ch o l h =
    reports_healthy soft hard now rest (observe_authenticated_frame t now) cs ch o refl h
reports_healthy soft hard last (poll_at now active ∷ rest) t cs ch o l h =
    let (quiet, same, kept) = poll_healthy t now active (omega arith) (omega arith) in
    rw quiet (
      reports_healthy soft hard last rest (poll t now active).0
        (ap (λ c. c.soft_input_timeout) same ∙ cs) (ap (λ c. c.hard_session_timeout) same ∙ ch) o
        (kept ∙ l) h.1)

abbrev is_hard : LivenessEvent → ℕ
is_hard hard_session_timeout = 1
is_hard soft_input_timeout = 0

abbrev pub hard_reports : List LivenessEvent → ℕ
hard_reports [] = 0
hard_reports (e ∷ es) = is_hard e + hard_reports es

-- No frame arrives.
abbrev pub IsSilent : List Call → Type 0
IsSilent [] = Unit {0}
IsSilent (frame_at now ∷ rest) = ⊥
IsSilent (poll_at now active ∷ rest) = IsSilent rest

-- Some poll comes at least the hard timeout after the last frame.
abbrev pub overdue : ℕ → ℕ → List Call → Bool
overdue hard last [] = false
overdue hard last (frame_at now ∷ rest) = overdue hard now rest
overdue hard last (poll_at now active ∷ rest) = leb hard (now - last) || overdue hard last rest

abbrev one_if : Bool → ℕ
one_if true = 1
one_if false = 0

poll_hard :
    (t : LivenessTracker) (now : ℕ) (active : Bool)
    → (hard_reports (prepend (poll t now active).1 [])
        ≡ one_if (leb t.config.hard_session_timeout (elapsed t now) && not t.hard_timeout_reported))
      × ((poll t now active).0.hard_timeout_reported
          ≡ (t.hard_timeout_reported || leb t.config.hard_session_timeout (elapsed t now)))
      × ((poll t now active).0.config ≡ t.config)
      × ((poll t now active).0.last_authenticated_activity ≡ t.last_authenticated_activity)
unfolding poll
poll_hard t now active = ground arith

hard_reports-prepend :
    (o : Option LivenessEvent) (es : List LivenessEvent)
    → hard_reports (prepend o es) ≡ hard_reports (prepend o []) + hard_reports es
hard_reports-prepend none es = omega arith
hard_reports-prepend (some e) es = omega arith

silent_reports :
    (calls : List Call) (t : LivenessTracker) (hard last : ℕ) (reported : Bool)
    → IsSilent calls
    → t.config.hard_session_timeout ≡ hard
    → t.last_authenticated_activity ≡ last
    → t.hard_timeout_reported ≡ reported
    → hard_reports (reports t calls) ≡ one_if (overdue hard last calls && not reported)
unfolding reports
silent_reports [] t hard last reported h c l r = refl
silent_reports (frame_at now ∷ rest) t hard last reported h c l r = absurd h
silent_reports (poll_at now active ∷ rest) t hard last reported h c l r =
    let (here, then_reported, config, kept) = poll_hard t now active in
    let later =
      silent_reports rest (poll t now active).0 hard last (reported || leb hard (now - last)) h
        (ap (λ k. k.hard_session_timeout) config ∙ c) (kept ∙ l) (ground arith) in
    ground (
      arith,
      hard_reports-prepend (poll t now active).1 (reports (poll t now active).0 rest),
      here,
      later,
    )

-- While no frame arrives, over any number of polls, a death that was not yet reported is reported
-- exactly once if some poll comes at least the hard timeout after the last frame, and otherwise
-- never, whether or not input is active.
pub hard_reports-silent :
    (calls : List Call) (t : LivenessTracker)
    → IsSilent calls
    → t.hard_timeout_reported ≡ false
    → hard_reports (reports t calls)
      ≡ (if overdue t.config.hard_session_timeout t.last_authenticated_activity calls then 1 else 0)
hard_reports-silent calls t h fresh = ground (
  arith,
  silent_reports calls t t.config.hard_session_timeout t.last_authenticated_activity false h refl
      refl fresh,
)
