-- ===== src/Notification/Sessions/Finality.antt =====
-- What is removed stays removed.
use mouse_without_borders.Base.{
  String, Bool, true, ◌≡◌, subst, sym, ap, ◌∙◌, Option, List, ok, arith, Bool-cases, inl, inr,
}
use mouse_without_borders.Protocol.Phone.{
  NotificationKey, SharedNotification, NotificationOperation,
}
use mouse_without_borders.Notification.Equality.{key_eq}
use mouse_without_borders.Notification.Store.{Store, apply, queue_local}
use mouse_without_borders.Notification.Store.Register.{
  slot_at, removed, operation_slot, join, apply_joins,
}
use mouse_without_borders.Notification.Store.Outbox.{counted, next_operation, queue_local-applies}
use mouse_without_borders.Notification.Hub.{Hub, is_coordinator, clear_error, local_change}
use mouse_without_borders.Notification.Link.{NotificationLink, Received, end_link, receive}
use mouse_without_borders.Notification.Link.Transition.{
  Transition, unchanged, submitted, acked, began, extended, dropped, replaced, receive-Transition,
}
use mouse_without_borders.Notification.Link.Frame.{receive-Framed}
use mouse_without_borders.Notification.Link.Fields.{
  open_link-fields, end_link-fields, local_change-fields,
}
use mouse_without_borders.Notification.Sessions.{
  Step, opened, ended, received, sent, changed_here, Run, done, then_step,
}

-- A removal that is accepted again, or content that comes late, changes nothing.
apply_removed :
    (s s' : Store) (sender : String) (op : NotificationOperation) (changed : Bool)
    (key : NotificationKey)
    → apply s sender op ≡ ok (s', changed)
    → slot_at key s ≡ removed
    → slot_at key s' ≡ removed
apply_removed s s' sender op changed key h gone =
    apply_joins s s' sender op changed key h ∙ elim (Bool-cases (key_eq op.key key)) [
      | inl e ↦ rw e (ap (λ a. join a (operation_slot op)) gone)
      | inr e ↦ rw e gone
    ]

Transition-removed :
    (h : Hub) (l : NotificationLink) (r : Received) (key : NotificationKey)
    → Transition h l r
    → is_coordinator h ≡ true
    → slot_at key h.state ≡ removed
    → slot_at key r.0.state ≡ removed
Transition-removed h l r key (unchanged a b) c g = ap (slot_at key) a ∙ g
Transition-removed h l r key (submitted op s _ e a b) c g =
    ap (slot_at key) a ∙ apply_removed h.state s l.peer op true key e g
Transition-removed h l r key (acked n s c' e a b) c g = absurd (ground arith)
Transition-removed h l r key (began epoch c' a b) c g = ap (slot_at key) a ∙ g
Transition-removed h l r key (extended epoch rs new e room f a b) c g = ap (slot_at key) a ∙ g
Transition-removed h l r key (dropped a b) c g = ap (slot_at key) a ∙ g
Transition-removed h l r key (replaced epoch rs c' e a b) c g = absurd (ground arith)

queue_local_removed :
    (s s' : Store) (key at : NotificationKey) (content : Option SharedNotification)
    → queue_local s at content true ≡ ok (s', true)
    → slot_at key s ≡ removed
    → slot_at key s' ≡ removed
unfolding counted
queue_local_removed s s' key at content h g =
    let (changed, e) = queue_local-applies s s' at content h in
    apply_removed (counted s) s' s.local_identity (next_operation s at content) changed key e g

same_coordinator :
    (h h' : Hub)
    → h'.identity ≡ h.identity
    → h'.coordinator_fingerprint ≡ h.coordinator_fingerprint
    → is_coordinator h ≡ true
    → is_coordinator h' ≡ true
unfolding is_coordinator
same_coordinator h h' a b c = rw (a, b) c

module _ (writes : Store → Bool) (IsPeer : String → Type 0) (key : NotificationKey) where
  -- A coordinator that holds the notification as removed.
  abbrev pub HoldsRemoved : Hub → Type 0
  HoldsRemoved h = (is_coordinator h ≡ true) × (slot_at key h.state ≡ removed)

  Step-HoldsRemoved :
      (h h' : Hub) (ls ls' : List NotificationLink)
      → Step writes IsPeer h ls h' ls'
      → HoldsRemoved h
      → HoldsRemoved h'
  unfolding clear_error is_coordinator
  Step-HoldsRemoved h h' ls ls' (opened _ _ _ peer supported l p e) x =
      subst HoldsRemoved (sym (open_link-fields h h' peer supported l e).0) (x.0, x.1)
  Step-HoldsRemoved h h' ls ls' (ended _ before after _ l e) x =
      let f = end_link-fields h l in
      (same_coordinator h (end_link h l) f.1 f.2 x.0, ap (slot_at key) f.0 ∙ x.1)
  Step-HoldsRemoved h h' ls ls' (received _ before after _ l event e) x =
      let f = receive-Framed writes h l event in
      let r = receive writes h l event in
      (
        same_coordinator h r.0 f.identity_kept f.owner_kept x.0,
        Transition-removed h l r key (receive-Transition writes h l event) x.0 x.1,
      )
  Step-HoldsRemoved h h' ls ls' (sent _ before after _ l e) x = x
  Step-HoldsRemoved h h' ls ls' (changed_here _ _ at content) x =
      let f = local_change-fields writes h at content in
      let new = (local_change writes h at content).0 in
      (
        same_coordinator h new f.0 f.1 x.0,
        elim f.2 [
          | inl e ↦ ap (slot_at key) e ∙ x.1
          | inr e ↦
              queue_local_removed h.state new.state key at content
                (subst (λ b. queue_local h.state at content b ≡ ok (new.state, true)) x.0 e) x.1
        ],
      )

  -- What a coordinator holds as removed stays removed, whatever the sessions, that of its origin
  -- too, and the user do afterwards, in any order.
  pub Run-HoldsRemoved :
      (h h' : Hub) (ls ls' : List NotificationLink)
      → Run writes IsPeer h ls h' ls'
      → HoldsRemoved h
      → HoldsRemoved h'
  Run-HoldsRemoved h h' ls ls' (done _ _) x = x
  Run-HoldsRemoved h h' ls ls' (then_step _ h₂ _ _ ls₂ _ s r) x =
      Run-HoldsRemoved h₂ h' ls₂ ls' r (Step-HoldsRemoved h h₂ ls ls₂ s x)
