-- ===== src/Notification/Link/Sending.antt =====
-- What a link sends until it waits.
use mouse_without_borders.Base.{
  ℕ, suc, zero, ◌+◌, ◌≤◌, ◌<◌, true, false, ◌≡◌, refl, ap, ◌∙◌, Option, none, some, List, [], ◌∷◌,
  map, length, length-append, arith, Bool-cases, inl, inr,
}
use mouse_without_borders.Protocol.Phone.{
  NotificationOperation, NotificationRecord, NotificationSync, entry, snapshot_end,
}
use mouse_without_borders.Notification.Store.{Store}
use mouse_without_borders.Notification.Hub.{Hub, is_coordinator}
use mouse_without_borders.Notification.Link.{
  NotificationLink, next_event, pop_event, refill, fill, is_seen, snapshot, submits, latest,
}

-- The events of successive calls of `next` up to the one that waits.
unfoldable pub drain :
    ℕ → Hub → NotificationLink → Option (List NotificationSync × NotificationLink)
unfolding next_event
drain zero h l = none
drain (suc n) h l = elim (next_event h l).1 [
  | none ↦ some ([], (next_event h l).0)
  | some e ↦ elim (drain n h (next_event h l).0) [ none ↦ none | some p ↦ some (e ∷ p.0, p.1) ]
]

-- Nothing has changed since the link looked.
pub record IsCurrent (h : Hub) (l : NotificationLink) : Type 0 where
  pub active : l.is_active ≡ true
  pub clean : l.dirty ≡ false
  pub current : is_seen l.seen h.generation ≡ true

pub next_event-pop :
    (h : Hub) (l : NotificationLink) (e : NotificationSync) (es : List NotificationSync)
    → l.outgoing ≡ e ∷ es
    → next_event h l ≡ (record l { outgoing = es }, some e)
unfolding next_event
next_event-pop h l e es o = ground arith

next_event-wait :
    (h : Hub) (l : NotificationLink) → l.outgoing ≡ [] → IsCurrent h l → next_event h l ≡ (l, none)
unfolding next_event
next_event-wait h l o c = ground (arith, c.active, c.clean, c.current)

pub drain-next :
    (n : ℕ) (h : Hub) (l l' : NotificationLink) (e : NotificationSync) (es : List NotificationSync)
    (to : NotificationLink)
    → next_event h l ≡ (l', some e)
    → drain n h l' ≡ some (es, to)
    → drain (suc n) h l ≡ some (e ∷ es, to)
unfolding drain
drain-next n h l l' e es to a b = ground arith

drain-wait :
    (n : ℕ) (h : Hub) (l l' : NotificationLink)
    → next_event h l ≡ (l', none)
    → drain (suc n) h l ≡ some ([], l')
unfolding drain
drain-wait n h l l' a = ground arith

-- A link that is up to date sends what is queued.
pub drain-queued :
    (es : List NotificationSync) (n : ℕ) (h : Hub) (l : NotificationLink)
    → l.outgoing ≡ es
    → IsCurrent h l
    → length es < n
    → drain n h l ≡ some (es, record l { outgoing = [] })
drain-queued es zero h l o c k = absurd (omega arith)
drain-queued [] (suc n) h l o c k = drain-wait n h l l (next_event-wait h l o c) ∙ ground (arith, o)
drain-queued (e ∷ es) (suc n) h l o c k =
    drain-next n h l (record l { outgoing = es }) e es (record l { outgoing = [] })
      (next_event-pop h l e es o)
      (drain-queued es n h (record l { outgoing = es }) refl
        (record { active = c.active; clean = c.clean; current = c.current }) (omega arith))

-- A confirmed link whose last look at the history is out of date.
pub record IsBehind (h : Hub) (l : NotificationLink) : Type 0 where
  pub active : l.is_active ≡ true
  pub clean : l.dirty ≡ false
  pub behind : is_seen l.seen h.generation ≡ false
  pub idle : l.outgoing ≡ []

-- Such a link after the end of the loop's body.
abbrev pub filled : Hub → NotificationLink → NotificationLink
filled h l = fill h (record l { seen = some h.generation })

next_event-refill :
    (h : Hub) (l : NotificationLink)
    → IsBehind h l
    → next_event h l ≡ pop_event (filled h l).outgoing (filled h l)
unfolding next_event refill
next_event-refill h l b = ground (arith, b.active, b.clean, b.behind, b.idle)

drain-refill :
    (es : List NotificationSync) (n : ℕ) (h : Hub) (l : NotificationLink)
    → IsBehind h l
    → (filled h l).outgoing ≡ es
    → IsCurrent h (filled h l)
    → length es < n
    → drain n h l ≡ some (es, record (filled h l) { outgoing = [] })
drain-refill es zero h l b o c k = absurd (omega arith)
drain-refill [] (suc n) h l b o c k =
    drain-wait n h l (filled h l) (next_event-refill h l b ∙ ap (λ x. pop_event x (filled h l)) o)
    ∙ ap (λ x. some ([], record (filled h l) { outgoing = x })) o
drain-refill (e ∷ es) (suc n) h l b o c k =
    drain-next n h l (record (filled h l) { outgoing = es }) e es
      (record (filled h l) { outgoing = [] })
      (next_event-refill h l b ∙ ap (λ x. pop_event x (filled h l)) o)
      (drain-queued es n h (record (filled h l) { outgoing = es }) refl
        (record { active = c.active; clean = c.clean; current = c.current }) (omega arith))

filled-IsCurrent : (h : Hub) (l : NotificationLink) → IsBehind h l → IsCurrent h (filled h l)
unfolding fill
filled-IsCurrent h l b = elim (Bool-cases (is_coordinator h)) [
  | inl c ↦ rw c (record { active = b.active; clean = refl; current = ground arith })
  | inr c ↦ rw c (record { active = b.active; clean = refl; current = ground arith })
]

-- What a link looks like once a coordinator, or a replica, has sent everything.
abbrev pub settled_link : Hub → NotificationLink → NotificationLink
settled_link h l = record l { seen = some h.generation; dirty = false; outgoing = [] }

filled-coordinator :
    (h : Hub) (l : NotificationLink)
    → is_coordinator h ≡ true
    → IsBehind h l
    → filled h l ≡ record (settled_link h l) { outgoing = snapshot h.state }
unfolding fill
filled-coordinator h l c b = ground (arith, b.idle)

filled-replica :
    (h : Hub) (l : NotificationLink)
    → is_coordinator h ≡ false
    → IsBehind h l
    → filled h l ≡ record (settled_link h l) {
      outgoing = submits l.sent_through h.state.pending;
      sent_through = latest l.sent_through h.state.pending;
    }
unfolding fill
filled-replica h l c b = ground (arith, b.idle)

length-entries : (rs : List NotificationRecord) → length (map entry rs) ≡ length rs
length-entries [] = refl
length-entries (r ∷ rs) = ap suc (length-entries rs)

length-snapshot : (s : Store) → length (snapshot s) ≡ length s.records + 2
unfolding snapshot
length-snapshot s =
    omega (arith, length-append (map entry s.records) (snapshot_end ∷ []), length-entries s.records)

-- A confirmed link of the coordinator that has nothing queued and has not seen the last change
-- sends exactly one snapshot of the whole history and then waits.
pub drain-snapshot :
    (h : Hub) (l : NotificationLink) (n : ℕ)
    → is_coordinator h ≡ true
    → IsBehind h l
    → length h.state.records + 2 < n
    → drain n h l ≡ some (snapshot h.state, settled_link h l)
drain-snapshot h l n c b k =
    let f = filled-coordinator h l c b in
    drain-refill (snapshot h.state) n h l b (ap (λ x. x.outgoing) f) (filled-IsCurrent h l b)
      (omega (arith, length-snapshot h.state, k))
    ∙ ap (λ x. some (snapshot h.state, record x { outgoing = [] })) f

length-submits : (m : ℕ) (ops : List NotificationOperation) → length (submits m ops) ≤ length ops
unfolding submits
length-submits m [] = omega arith
length-submits m (op ∷ ops) = ground (arith, length-submits m ops)

-- A replica's link sends the operations of the outbox that it has not sent, in order, and then
-- waits.
pub drain-submits :
    (h : Hub) (l : NotificationLink) (n : ℕ)
    → is_coordinator h ≡ false
    → IsBehind h l
    → length h.state.pending < n
    → drain n h l
      ≡ some (
        submits l.sent_through h.state.pending,
        record (settled_link h l) { sent_through = latest l.sent_through h.state.pending },
      )
drain-submits h l n c b k =
    let f = filled-replica h l c b in
    let ops = submits l.sent_through h.state.pending in
    drain-refill ops n h l b (ap (λ x. x.outgoing) f) (filled-IsCurrent h l b)
      (omega (arith, length-submits l.sent_through h.state.pending, k))
    ∙ ap (λ x. some (ops, record x { outgoing = [] })) f
