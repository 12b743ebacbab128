-- ===== src/Notification/Link/Answer.antt =====
-- What a submission is answered with.
use mouse_without_borders.Base.{
  ℕ, suc, zero, ◌+◌, ◌<◌, Bool, true, false, ◌≡◌, refl, sym, ap, ◌∙◌, some, [], ◌∷◌, length, ok,
  arith,
}
use mouse_without_borders.Base.Bytes.{u64_mod}
use mouse_without_borders.Protocol.Phone.{NotificationOperation, submit, ack}
use mouse_without_borders.Notification.Store.{Store, apply}
use mouse_without_borders.Notification.Hub.{Hub, is_coordinator, commit_store, publish}
use mouse_without_borders.Notification.Link.{
  NotificationLink, is_seen, snapshot, push_ack, answered, receive, receive_other,
  receive_confirmed, receive_submit,
}
use mouse_without_borders.Notification.Link.Sending.{
  drain, IsBehind, IsCurrent, settled_link, drain-snapshot, drain-next, next_event-pop,
}

publish-is_coordinator :
    (h : Hub) (s : Store) → is_coordinator (publish (record h { state = s })) ≡ is_coordinator h
unfolding is_coordinator publish
publish-is_coordinator h s = refl

receive_submit_ok :
    (writes : Store → Bool) (h : Hub) (l : NotificationLink) (op : NotificationOperation)
    (s : Store)
    → is_coordinator h ≡ true
    → l.is_active ≡ true
    → l.outgoing ≡ []
    → apply h.state l.peer op ≡ ok (s, true)
    → writes s ≡ true
    → receive writes h l (submit op)
      ≡ (publish (record h { state = s }), record l { outgoing = ack op.sequence ∷ [] }, ok tt)
unfolding receive receive_other receive_confirmed receive_submit answered push_ack commit_store
receive_submit_ok writes h l op s c act o a w = ground arith

unseen :
    (h : Hub) (s : Store) (l : NotificationLink)
    → l.seen ≡ some h.generation
    → h.generation < u64_mod
    → is_seen l.seen (publish (record h { state = s })).generation ≡ false
unfolding publish
unseen h s l seen g = ground arith

-- A submission that changes the history of a coordinator, on a confirmed link with nothing queued,
-- is answered by its Ack, then by one snapshot of the history that it changed, and then the link
-- waits: the Ack comes first.
pub submit-answered :
    (writes : Store → Bool) (h : Hub) (l : NotificationLink) (op : NotificationOperation)
    (s : Store) (n : ℕ)
    → is_coordinator h ≡ true
    → IsCurrent h l
    → l.outgoing ≡ []
    → l.seen ≡ some h.generation
    → h.generation < u64_mod
    → apply h.state l.peer op ≡ ok (s, true)
    → writes s ≡ true
    → length s.records + 3 < n
    → ((receive writes h l (submit op)).0.state ≡ s)
      × ((p : NotificationLink) × (drain n
              (receive writes h l (submit op)).0
              (receive writes h l (submit op)).1
            ≡ some (ack op.sequence ∷ snapshot s, p)))
unfolding publish
submit-answered writes h l op s zero c i o seen g a w k = absurd (omega arith)
submit-answered writes h l op s (suc n) c i o seen g a w k =
    let h' = publish (record h { state = s }) in
    let l' : NotificationLink = record l { outgoing = ack op.sequence ∷ [] } in
    let r = receive_submit_ok writes h l op s c i.active o a w in
    let coordinates : is_coordinator h' ≡ true = publish-is_coordinator h s ∙ c in
    let b : IsBehind h' l = record {
      active = i.active;
      clean = i.clean;
      behind = unseen h s l seen g;
      idle = o;
    } in
    let d : drain (suc n) h' l' ≡ some (ack op.sequence ∷ snapshot s, settled_link h' l) =
      drain-next n h' l' l (ack op.sequence) (snapshot s) (settled_link h' l)
        (next_event-pop h' l' (ack op.sequence) [] refl
          ∙ ap (λ x. (record l { outgoing = x }, some (ack op.sequence))) (sym o))
        (drain-snapshot h' l n coordinates b (omega (arith, k))) in
    (ap (λ x. x.0.state) r, (settled_link h' l, ap (λ x. drain (suc n) x.0 x.1) r ∙ d))
