-- ===== src/Notification/Sessions/Authority.antt =====
-- Only the origin of a notification changes what it says.
use mouse_without_borders.Base.{
  String, str_eq, eq_iff, Bool, true, false, ◌≡◌, refl, subst, sym, ap, ◌∙◌, Option, none, some,
  List, if◌then◌else◌, ok, arith, Bool-cases, inl, inr, ◌⊎◌,
}
use mouse_without_borders.Protocol.Phone.{
  NotificationKey, SharedNotification, NotificationOperation,
}
use mouse_without_borders.Notification.Equality.{key_eq, key_eq_iff}
use mouse_without_borders.Notification.Store.{
  Store, apply, check_operation, validate_source, queue_local,
}
use mouse_without_borders.Notification.Store.Register.{
  Slot, absent, live, removed, slot_at, operation_slot, join, apply_joins,
}
use mouse_without_borders.Notification.Store.Outbox.{counted, next_operation, queue_local-applies}
use mouse_without_borders.Notification.Hub.{Hub, is_coordinator, clear_error, local_change}
use mouse_without_borders.Notification.Link.{
  NotificationLink, Received, end_link, next_event, receive,
}
use mouse_without_borders.Notification.Link.Transition.{
  Transition, unchanged, submitted, acked, began, extended, dropped, replaced, receive-Transition,
}
use mouse_without_borders.Notification.Link.Frame.{apply-fields, receive-Framed}
use mouse_without_borders.Notification.Link.Fields.{
  next_event-staged, open_link-fields, end_link-fields, local_change-fields,
}
use mouse_without_borders.Notification.Sessions.{
  Step, opened, ended, received, sent, changed_here, Run, done, then_step, AllLinks, AllLinks-at,
  AllLinks-set, AllLinks-drop,
}

-- The notification is as it was, or gone for good.
abbrev pub IsKeptOrRemoved : NotificationKey → Store → Store → Type 0
IsKeptOrRemoved key s s' = (slot_at key s' ≡ slot_at key s) ⊎ (slot_at key s' ≡ removed)

join-removed : (a : Slot) → join a removed ≡ removed
join-removed absent = refl
join-removed (live m c) = refl
join-removed removed = refl

-- An operation with content that is accepted comes from its origin.
apply-source :
    (s s' : Store) (sender : String) (op : NotificationOperation) (changed : Bool)
    (content : SharedNotification)
    → apply s sender op ≡ ok (s', changed)
    → op.content ≡ some content
    → op.key.origin ≡ sender
unfolding apply check_operation validate_source
apply-source s s' sender op changed content h e = ground (arith, eq_iff op.key.origin sender)

-- What a sender can do to a notification that is not its own.
pub apply_foreign :
    (s s' : Store) (sender : String) (op : NotificationOperation) (changed : Bool)
    (key : NotificationKey)
    → apply s sender op ≡ ok (s', changed)
    → str_eq key.origin sender ≡ false
    → IsKeptOrRemoved key s s'
apply_foreign s s' sender op changed key h foreign =
    let j = apply_joins s s' sender op changed key h in
    elim (Bool-cases (key_eq op.key key)) [
      | inr e ↦ inl (ground arith)
      | inl e ↦ at op.content refl e j
    ]
  where
    at :
        (content : Option SharedNotification)
        → op.content ≡ content
        → key_eq op.key key ≡ true
        → slot_at key s'
          ≡ (if key_eq op.key key then join (slot_at key s) (operation_slot op) else slot_at key s)
        → IsKeptOrRemoved key s s'
    at none c e j = inr (j ∙ rw e (rw c (join-removed (slot_at key s))))
    at (some x) c e j = absurd (
        ground (
          arith,
          key_eq_iff op.key key,
          eq_iff key.origin sender,
          apply-source s s' sender op changed x h c,
        ))

IsKeptOrRemoved-trans :
    (key : NotificationKey) (s₁ s₂ s₃ : Store)
    → IsKeptOrRemoved key s₁ s₂
    → IsKeptOrRemoved key s₂ s₃
    → IsKeptOrRemoved key s₁ s₃
IsKeptOrRemoved-trans key s₁ s₂ s₃ a (inr b) = inr b
IsKeptOrRemoved-trans key s₁ s₂ s₃ (inl a) (inl b) = inl (b ∙ a)
IsKeptOrRemoved-trans key s₁ s₂ s₃ (inr a) (inl b) = inr (b ∙ a)

-- A coordinator on which no notification of this origin is local.
pub record IsElsewhere (origin : String) (h : Hub) : Type 0 where
  pub coordinates : is_coordinator h ≡ true
  pub not_local : str_eq origin h.state.local_identity ≡ false

IsElsewhere-mono :
    (origin : String) (h h' : Hub)
    → h'.identity ≡ h.identity
    → h'.coordinator_fingerprint ≡ h.coordinator_fingerprint
    → h'.state.local_identity ≡ h.state.local_identity
    → IsElsewhere origin h
    → IsElsewhere origin h'
unfolding is_coordinator
IsElsewhere-mono origin h h' a b c e = record {
  coordinates = rw (a, b) e.coordinates;
  not_local = rw c e.not_local;
}

Transition-foreign :
    (h : Hub) (l : NotificationLink) (r : Received) (key : NotificationKey)
    → Transition h l r
    → is_coordinator h ≡ true
    → str_eq key.origin l.peer ≡ false
    → IsKeptOrRemoved key h.state r.0.state × (r.0.state.local_identity ≡ h.state.local_identity)
Transition-foreign h l r key (unchanged a b) c p =
    (inl (ap (slot_at key) a), ap (λ x. x.local_identity) a)
Transition-foreign h l r key (submitted op s _ e a b) c p = (
  subst (IsKeptOrRemoved key h.state) (sym a) (apply_foreign h.state s l.peer op true key e p),
  ap (λ x. x.local_identity) a
      ∙ ap (λ x. x.local_identity) (apply-fields h.state s l.peer op true e),
)
Transition-foreign h l r key (acked n s c' e a b) c p = absurd (ground arith)
Transition-foreign h l r key (began epoch c' a b) c p = absurd (ground arith)
Transition-foreign h l r key (extended epoch rs new e room f a b) c p =
    (inl (ap (slot_at key) a), ap (λ x. x.local_identity) a)
Transition-foreign h l r key (dropped a b) c p =
    (inl (ap (slot_at key) a), ap (λ x. x.local_identity) a)
Transition-foreign h l r key (replaced epoch rs c' e a b) c p = absurd (ground arith)

queue_local_foreign :
    (s s' : Store) (key at : NotificationKey) (content : Option SharedNotification)
    → queue_local s at content true ≡ ok (s', true)
    → str_eq key.origin s.local_identity ≡ false
    → IsKeptOrRemoved key s s' × (s'.local_identity ≡ s.local_identity)
unfolding counted
queue_local_foreign s s' key at content h p =
    let (changed, e) = queue_local-applies s s' at content h in
    (
      apply_foreign (counted s) s' s.local_identity (next_operation s at content) changed key e p,
      ap (λ x. x.local_identity)
          (apply-fields (counted s) s' s.local_identity (next_operation s at content) changed e),
    )

module _ (writes : Store → Bool) (key : NotificationKey) where
  -- A link whose peer is not the origin.
  abbrev pub IsForeign : NotificationLink → Type 0
  IsForeign l = str_eq key.origin l.peer ≡ false

  -- A peer that is not the origin.
  abbrev pub IsOther : String → Type 0
  IsOther peer = str_eq key.origin peer ≡ false

  abbrev pub Guarded : Hub → Hub → List NotificationLink → Type 0
  Guarded h h' ls' =
      IsKeptOrRemoved key h.state h'.state × IsElsewhere key.origin h' × AllLinks IsForeign ls'

  Step-foreign :
      (h h' : Hub) (ls ls' : List NotificationLink)
      → Step writes IsOther h ls h' ls'
      → IsElsewhere key.origin h
      → AllLinks IsForeign ls
      → Guarded h h' ls'
  unfolding AllLinks clear_error is_coordinator
  Step-foreign h h' ls ls' (opened _ _ _ peer supported l p e) x w =
      let f = open_link-fields h h' peer supported l e in
      (
        inl (ap (λ t. slot_at key t.state) f.0),
        subst (IsElsewhere key.origin) (sym f.0)
            (record { coordinates = x.coordinates; not_local = x.not_local }),
        (subst (λ q. str_eq key.origin q ≡ false) (sym f.1) p, w),
      )
  Step-foreign h h' ls ls' (ended _ before after _ l e) x w =
      let f = end_link-fields h l in
      (
        inl (ap (slot_at key) f.0),
        IsElsewhere-mono key.origin h (end_link h l) f.1 f.2 (ap (λ t. t.local_identity) f.0) x,
        AllLinks-drop IsForeign before after l (subst (AllLinks IsForeign) e w),
      )
  Step-foreign h h' ls ls' (received _ before after _ l event e) x w =
      let w' = subst (AllLinks IsForeign) e w in
      let foreign = AllLinks-at IsForeign before after l w' in
      let f = receive-Framed writes h l event in
      let t =
        Transition-foreign h l (receive writes h l event) key (receive-Transition writes h l event)
          x.coordinates foreign in
      (
        t.0,
        IsElsewhere-mono key.origin h (receive writes h l event).0 f.identity_kept f.owner_kept t.1
            x,
        AllLinks-set IsForeign before after l (receive writes h l event).1 w'
            (subst (λ q. str_eq key.origin q ≡ false) (sym f.peer_kept) foreign),
      )
  Step-foreign h h' ls ls' (sent _ before after _ l e) x w =
      let w' = subst (AllLinks IsForeign) e w in
      (
        inl refl,
        x,
        AllLinks-set IsForeign before after l (next_event h l).0 w' (
            subst (λ q. str_eq key.origin q ≡ false) (sym (next_event-staged h l).1)
              (AllLinks-at IsForeign before after l w')),
      )
  Step-foreign h h' ls ls' (changed_here _ _ at content) x w =
      let f = local_change-fields writes h at content in
      let new = (local_change writes h at content).0 in
      elim f.2 [
        | inl e ↦ (
          inl (ap (slot_at key) e),
          IsElsewhere-mono key.origin h new f.0 f.1 (ap (λ t. t.local_identity) e) x,
          w,
        )
        | inr e ↦
            let q =
              queue_local_foreign h.state new.state key at content
                (subst (λ b. queue_local h.state at content b ≡ ok (new.state, true)) x.coordinates
                  e)
                x.not_local in
            (q.0, IsElsewhere-mono key.origin h new f.0 f.1 q.1 x, w)
      ]

  Run-foreign :
      (h h' : Hub) (ls ls' : List NotificationLink)
      → Run writes IsOther h ls h' ls'
      → IsElsewhere key.origin h
      → AllLinks IsForeign ls
      → Guarded h h' ls'
  Run-foreign h h' ls ls' (done _ _) x w = (inl refl, x, w)
  Run-foreign h h' ls ls' (then_step _ h₂ _ _ ls₂ _ s r) x w =
      let a = Step-foreign h h₂ ls ls₂ s x w in
      let b = Run-foreign h₂ h' ls₂ ls' r a.1 a.2 in
      (IsKeptOrRemoved-trans key h.state h₂.state h'.state a.0 b.0, b.1, b.2)

  -- As long as no session is with the origin of a notification and the origin is not this PC, then
  -- whatever the sessions and the user do on the coordinator, in any order, the notification keeps
  -- its content and its number, or is gone for good.
  pub Run-IsKeptOrRemoved :
      (h h' : Hub) (ls ls' : List NotificationLink)
      → Run writes IsOther h ls h' ls'
      → IsElsewhere key.origin h
      → AllLinks IsForeign ls
      → IsKeptOrRemoved key h.state h'.state
  Run-IsKeptOrRemoved h h' ls ls' r x w = (Run-foreign h h' ls ls' r x w).0
