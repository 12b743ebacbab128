-- ===== src/Notification/Link/Resending.antt =====
-- What a replica has sent is not sent again.
use mouse_without_borders.Base.{
  ℕ, ◌≤◌, ◌<◌, max, false, ◌≡◌, refl, subst, sym, ap, ◌∙◌, Option, some, List, [], ◌∷◌, length,
  arith,
}
use mouse_without_borders.Protocol.Phone.{NotificationOperation, NotificationSync}
use mouse_without_borders.Notification.Hub.{Hub, is_coordinator}
use mouse_without_borders.Notification.Link.{
  NotificationLink, is_seen, submits, latest, retain_sequence,
}
use mouse_without_borders.Notification.Link.Sending.{drain, IsBehind, settled_link, drain-submits}

-- Nothing is above the highest number.
abbrev pub AreAtMost : ℕ → List NotificationOperation → Type 0
AreAtMost m [] = Unit {0}
AreAtMost m (op ∷ ops) = (op.sequence ≤ m) × AreAtMost m ops

submits_none : (m : ℕ) (ops : List NotificationOperation) → AreAtMost m ops → submits m ops ≡ []
unfolding submits
submits_none m [] a = refl
submits_none m (op ∷ ops) a = ground (arith, submits_none m ops)

AreAtMost-mono :
    (m n : ℕ) (ops : List NotificationOperation) → m ≤ n → AreAtMost m ops → AreAtMost n ops
AreAtMost-mono m n [] h a = tt
AreAtMost-mono m n (op ∷ ops) h a = (omega arith, AreAtMost-mono m n ops h a.1)

latest-AreAtMost : (m : ℕ) (ops : List NotificationOperation) → AreAtMost (latest m ops) ops
unfolding latest
latest-AreAtMost m [] = tt
latest-AreAtMost m (op ∷ ops) = (
  omega arith,
  AreAtMost-mono (latest m ops) (max op.sequence (latest m ops)) ops (omega arith)
      (latest-AreAtMost m ops),
)

retain_sequence-AreAtMost :
    (m n : ℕ) (ops : List NotificationOperation)
    → AreAtMost m ops
    → AreAtMost m (retain_sequence n ops)
unfolding retain_sequence
retain_sequence-AreAtMost m n [] a = tt
retain_sequence-AreAtMost m n (op ∷ ops) a = ground (arith, retain_sequence-AreAtMost m n ops)

latest_top : (m : ℕ) (ops : List NotificationOperation) → AreAtMost m ops → latest m ops ≡ m
unfolding latest
latest_top m [] a = refl
latest_top m (op ∷ ops) a = omega (arith, latest_top m ops a.1, a.0)

last_link :
    (es : List NotificationSync) (l : NotificationLink) (es' : List NotificationSync)
    (l' : NotificationLink)
    → ◌≡◌ {A = Option (List NotificationSync × NotificationLink)} (some (es, l)) (some (es', l'))
    → l ≡ l'
last_link es l es' l' e = ground arith

-- A replica's link once it has sent everything.
abbrev pub sent_link : Hub → NotificationLink → NotificationLink
sent_link h l = record (settled_link h l) { sent_through = latest l.sent_through h.state.pending }

-- Operations that a link has sent are not sent again when the history changes, as after a snapshot
-- or an Ack: if the outbox is as it was then, or an acknowledged operation is gone from it, the
-- link sends nothing and waits.
pub drain_sent :
    (h h' : Hub) (l l' : NotificationLink) (n : ℕ) (acked : ℕ) (sent : List NotificationSync)
    (m : ℕ)
    → is_coordinator h ≡ false
    → is_coordinator h' ≡ false
    → IsBehind h l
    → length h.state.pending < n
    → drain n h l ≡ some (sent, l')
    → h'.state.pending ≡ retain_sequence acked h.state.pending
    → is_seen l'.seen h'.generation ≡ false
    → length h'.state.pending < m
    → drain m h' l' ≡ some ([], settled_link h' l')
drain_sent h h' l l' n acked sent m c c' b k d p s room =
    let f : l' ≡ sent_link h l =
      last_link sent l' (submits l.sent_through h.state.pending) (sent_link h l)
        (sym d ∙ drain-submits h l n c b k) in
    let b' : IsBehind h' l' = record {
      active = ap (λ x. x.is_active) f ∙ b.active;
      clean = ap (λ x. x.dirty) f;
      behind = s;
      idle = ap (λ x. x.outgoing) f;
    } in
    let top = ap (λ x. x.sent_through) f in
    let few : AreAtMost l'.sent_through h'.state.pending =
      subst (λ t. AreAtMost t h'.state.pending) (sym top)
        (subst (AreAtMost (latest l.sent_through h.state.pending)) (sym p) (
          retain_sequence-AreAtMost (latest l.sent_through h.state.pending) acked h.state.pending
            (latest-AreAtMost l.sent_through h.state.pending))) in
    drain-submits h' l' m c' b' room
    ∙ ap
        (λ x. some (
          x,
          record (settled_link h' l') { sent_through = latest l'.sent_through h'.state.pending },
        ))
        (submits_none l'.sent_through h'.state.pending few)
    ∙ ap (λ x. some ([], record (settled_link h' l') { sent_through = x }))
        (latest_top l'.sent_through h'.state.pending few)
