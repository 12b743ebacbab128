-- ===== src/Notification/Sessions/Validity.antt =====
-- The rules of the history hold in every reachable state.
use mouse_without_borders.Base.{
  ℕ, ◌≤◌, ◌==◌, String, Bool, true, ◌≡◌, refl, subst, sym, Option, none, some, List, [], ◌∷◌,
  length, length-append, Result, ok, err, arith, Bool-cases, inl, inr,
}
use mouse_without_borders.Protocol.Phone.{
  NotificationKey, NotificationOperation, NotificationRecord,
}
use mouse_without_borders.Notification.Validation.{HubError}
use mouse_without_borders.Notification.Store.{Store, apply, find_pending, max_records}
use mouse_without_borders.Notification.Store.View.{IsDistinct}
use mouse_without_borders.Notification.Store.Invariant.{
  IsValid, IsDistinctRecords, IsRising, IsRising-mono, apply-IsValid, append-IsDistinctRecords,
}
use mouse_without_borders.Notification.Store.Outbox.{queue_local-IsValid}
use mouse_without_borders.Notification.Hub.{Hub, is_coordinator, clear_error, local_change}
use mouse_without_borders.Notification.Link.{
  NotificationLink, Received, next_event, receive, retain_sequence, acknowledged, find_sequence,
}
use mouse_without_borders.Notification.Link.Transition.{
  Transition, unchanged, submitted, acked, began, extended, dropped, replaced, receive-Transition,
}
use mouse_without_borders.Notification.Link.Fields.{
  next_event-staged, open_link-fields, end_link-fields, local_change-fields,
}
use mouse_without_borders.Notification.Sessions.{
  Step, opened, ended, received, sent, changed_here, Run, done, then_step, AllLinks, AllLinks-at,
  AllLinks-set, AllLinks-drop,
}

-- A snapshot that is being staged is within its capacity and has each key once.
abbrev pub IsValidStaged : Option (String × List NotificationRecord) → Type 0
IsValidStaged none = Unit {0}
IsValidStaged (some (epoch, rs)) = IsDistinctRecords rs × (length rs ≤ max_records)

abbrev pub IsValidLink : NotificationLink → Type 0
IsValidLink l = IsValidStaged l.staged

retain_sequence-none :
    (n : ℕ) (key : NotificationKey) (ops : List NotificationOperation)
    → find_pending key ops ≡ none
    → find_pending key (retain_sequence n ops) ≡ none
unfolding find_pending retain_sequence
retain_sequence-none n key [] h = refl
retain_sequence-none n key (op ∷ ops) h = ground (arith, retain_sequence-none n key ops)

retain_sequence-IsDistinct :
    (n : ℕ) (ops : List NotificationOperation) → IsDistinct ops → IsDistinct (retain_sequence n ops)
unfolding retain_sequence
retain_sequence-IsDistinct n [] d = tt
retain_sequence-IsDistinct n (op ∷ ops) d =
    ground (arith, retain_sequence-IsDistinct n ops, retain_sequence-none n op.key ops)

length-retain_sequence :
    (n : ℕ) (ops : List NotificationOperation) → length (retain_sequence n ops) ≤ length ops
unfolding retain_sequence
length-retain_sequence n [] = omega arith
length-retain_sequence n (op ∷ ops) = ground (arith, length-retain_sequence n ops)

retain_sequence-IsRising :
    (n : ℕ) (ops : List NotificationOperation) (lo hi : ℕ)
    → IsRising lo hi ops
    → IsRising lo hi (retain_sequence n ops)
unfolding retain_sequence
retain_sequence-IsRising n [] lo hi r = tt
retain_sequence-IsRising n (op ∷ ops) lo hi r =
    let rest = retain_sequence-IsRising n ops op.sequence hi r.2 in
    elim (Bool-cases (op.sequence == n)) [
      | inl e ↦ rw e (
          IsRising-mono (retain_sequence n ops) op.sequence lo hi hi (omega arith) (omega arith)
            rest)
      | inr e ↦ rw e (r.0, r.1, rest)
    ]

retained-IsValid :
    (s : Store) (n : ℕ) → IsValid s → IsValid (record s { pending = retain_sequence n s.pending })
retained-IsValid s n v = record {
  records_distinct = v.records_distinct;
  records_bounded = v.records_bounded;
  pending_distinct = retain_sequence-IsDistinct n s.pending v.pending_distinct;
  pending_bounded = omega (arith, v.pending_bounded, length-retain_sequence n s.pending);
  pending_rising = retain_sequence-IsRising n s.pending 0 s.sequence v.pending_rising;
}

acknowledged-IsValid :
    (h : Hub) (n : ℕ) (found : Option NotificationOperation) (s : Store)
    → acknowledged h n found ≡ ok s
    → IsValid h.state
    → IsValid s
unfolding acknowledged
acknowledged-IsValid h n none s e v = subst IsValid (ground arith) (retained-IsValid h.state n v)
acknowledged-IsValid h n (some op) s e v =
    at (apply (record (h.state) { pending = retain_sequence n h.state.pending }) h.identity op) refl
  where
    at :
        (a : Result HubError (Store × Bool))
        → apply (record (h.state) { pending = retain_sequence n h.state.pending }) h.identity op ≡ a
        → IsValid s
    at (err x) a = absurd (ground arith)
    at (ok (t, ch)) a = subst IsValid (ground arith) (
        apply-IsValid (record (h.state) { pending = retain_sequence n h.state.pending }) t
          h.identity op ch a (retained-IsValid h.state n v))

replaced-IsValid :
    (s : Store) (epoch : String) (rs : List NotificationRecord)
    → IsValid s
    → IsDistinctRecords rs × (length rs ≤ max_records)
    → IsValid (record s { epoch = epoch; records = rs })
replaced-IsValid s epoch rs v d = record {
  records_distinct = d.0;
  records_bounded = d.1;
  pending_distinct = v.pending_distinct;
  pending_bounded = v.pending_bounded;
  pending_rising = v.pending_rising;
}

Transition-IsValid :
    (h : Hub) (l : NotificationLink) (r : Received)
    → Transition h l r
    → IsValid h.state
    → IsValidLink l
    → IsValid r.0.state × IsValidLink r.1
Transition-IsValid h l r (unchanged a b) v w =
    (subst IsValid (sym a) v, subst IsValidStaged (sym b) w)
Transition-IsValid h l r (submitted op s c e a b) v w = (
  subst IsValid (sym a) (apply-IsValid h.state s l.peer op true e v),
  subst IsValidStaged (sym b) w,
)
Transition-IsValid h l r (acked n s c e a b) v w = (
  subst IsValid (sym a) (acknowledged-IsValid h n (find_sequence n h.state.pending) s e v),
  subst IsValidStaged (sym b) w,
)
Transition-IsValid h l r (began epoch c a b) v w =
    (subst IsValid (sym a) v, subst IsValidStaged (sym b) (tt, omega arith))
Transition-IsValid h l r (extended epoch rs new e room f a b) v w =
    let w' : IsDistinctRecords rs × (length rs ≤ max_records) = subst IsValidStaged e w in
    (
      subst IsValid (sym a) v,
      subst IsValidStaged (sym b)
          (append-IsDistinctRecords rs new w'.0 f, ground (arith, length-append rs (new ∷ []))),
    )
Transition-IsValid h l r (dropped a b) v w =
    (subst IsValid (sym a) v, subst IsValidStaged (sym b) tt)
Transition-IsValid h l r (replaced epoch rs c e a b) v w =
    let w' : IsDistinctRecords rs × (length rs ≤ max_records) = subst IsValidStaged e w in
    (subst IsValid (sym a) (replaced-IsValid h.state epoch rs v w'), subst IsValidStaged (sym b) tt)

module _ (writes : Store → Bool) (IsPeer : String → Type 0) where
  Step-IsValid :
      (h h' : Hub) (ls ls' : List NotificationLink)
      → Step writes IsPeer h ls h' ls'
      → IsValid h.state
      → AllLinks IsValidLink ls
      → IsValid h'.state × AllLinks IsValidLink ls'
  unfolding AllLinks clear_error
  Step-IsValid h h' ls ls' (opened _ _ _ peer supported l p e) v w =
      let f = open_link-fields h h' peer supported l e in
      (subst (λ x. IsValid x.state) (sym f.0) v, (subst IsValidStaged (sym f.2) tt, w))
  Step-IsValid h h' ls ls' (ended _ before after _ l e) v w = (
    subst IsValid (sym (end_link-fields h l).0) v,
    AllLinks-drop IsValidLink before after l (subst (AllLinks IsValidLink) e w),
  )
  Step-IsValid h h' ls ls' (received _ before after _ l event e) v w =
      let w' = subst (AllLinks IsValidLink) e w in
      let (a, b) =
        Transition-IsValid h l (receive writes h l event) (receive-Transition writes h l event) v
          (AllLinks-at IsValidLink before after l w') in
      (a, AllLinks-set IsValidLink before after l (receive writes h l event).1 w' b)
  Step-IsValid h h' ls ls' (sent _ before after _ l e) v w =
      let w' = subst (AllLinks IsValidLink) e w in
      (
        v,
        AllLinks-set IsValidLink before after l (next_event h l).0 w' (
            subst IsValidStaged (sym (next_event-staged h l).0)
              (AllLinks-at IsValidLink before after l w')),
      )
  Step-IsValid h h' ls ls' (changed_here _ _ key content) v w =
      elim (local_change-fields writes h key content).2 [
        | inl e ↦ (subst IsValid (sym e) v, w)
        | inr e ↦ (
          queue_local-IsValid h.state (local_change writes h key content).0.state key content
              (is_coordinator h) true e v,
          w,
        )
      ]

  -- Whatever the sessions and the user do, in any order, the history stays valid, and so does each
  -- snapshot that is being staged: keys are distinct, the capacities hold, and the outbox holds
  -- rising numbers up to the counter.
  pub Run-IsValid :
      (h h' : Hub) (ls ls' : List NotificationLink)
      → Run writes IsPeer h ls h' ls'
      → IsValid h.state
      → AllLinks IsValidLink ls
      → IsValid h'.state × AllLinks IsValidLink ls'
  Run-IsValid h h' ls ls' (done _ _) v w = (v, w)
  Run-IsValid h h' ls ls' (then_step _ h₂ _ _ ls₂ _ s r) v w =
      let (v', w') = Step-IsValid h h₂ ls ls₂ s v w in Run-IsValid h₂ h' ls₂ ls' r v' w'
