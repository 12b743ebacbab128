-- ===== src/Notification/Link/Transition.antt =====
-- What one received event can do to the history and to what the link has staged.
use mouse_without_borders.Base.{
  ℕ, ltb, String, str_eq, Bool, true, false, ◌≡◌, refl, ap, subst, sym, ◌&&◌, not, Option, none,
  some, is_some, List, [], ◌∷◌, ◌++◌, length, if◌then◌else◌, Result, ok, err, arith, Bool-cases,
  inl, inr,
}
use mouse_without_borders.Protocol.Phone.{
  NotificationOperation, NotificationRecord, NotificationSync, submit, ack, snapshot_start, entry,
  snapshot_end, settings,
}
use mouse_without_borders.Notification.Equality.{records_eq}
use mouse_without_borders.Notification.Validation.{HubError, owner_not_confirmed}
use mouse_without_borders.Notification.Store.{Store, apply, find_record, max_records}
use mouse_without_borders.Notification.Hub.{Hub, is_coordinator, commit_store, publish}
use mouse_without_borders.Notification.Link.{
  NotificationLink, Received, receive, receive_submit, receive_ack, receive_start, check_start,
  receive_entry, receive_end, finish_snapshot, stage, receive_confirmed, receive_other,
  receive_settings, push_ack, answered, acknowledged, find_sequence, has_sequence, committed,
  validate_entry,
}

pub data Transition (h : Hub) (l : NotificationLink) (r : Received) : Type 0 where
  unchanged : r.0.state ≡ h.state → r.1.staged ≡ l.staged → Transition h l r
  submitted :
      (op : NotificationOperation) (s : Store)
      → is_coordinator h ≡ true
      → apply h.state l.peer op ≡ ok (s, true)
      → r.0.state ≡ s
      → r.1.staged ≡ l.staged
      → Transition h l r
  acked :
      (n : ℕ) (s : Store)
      → is_coordinator h ≡ false
      → acknowledged h n (find_sequence n h.state.pending) ≡ ok s
      → r.0.state ≡ s
      → r.1.staged ≡ l.staged
      → Transition h l r
  began :
      (epoch : String)
      → is_coordinator h ≡ false
      → r.0.state ≡ h.state
      → r.1.staged ≡ some (epoch, [])
      → Transition h l r
  extended :
      (epoch : String) (rs : List NotificationRecord) (new : NotificationRecord)
      → l.staged ≡ some (epoch, rs)
      → ltb (length rs) max_records ≡ true
      → find_record new.key rs ≡ none
      → r.0.state ≡ h.state
      → r.1.staged ≡ some (epoch, rs ++ new ∷ [])
      → Transition h l r
  dropped : r.0.state ≡ h.state → r.1.staged ≡ none → Transition h l r
  replaced :
      (epoch : String) (rs : List NotificationRecord)
      → is_coordinator h ≡ false
      → l.staged ≡ some (epoch, rs)
      → r.0.state ≡ record (h.state) { epoch = epoch; records = rs }
      → r.1.staged ≡ none
      → Transition h l r

push_ack-Transition :
    (h : Hub) (l : NotificationLink) (n : ℕ)
    → (push_ack h l n).0 ≡ h × (push_ack h l n).1.staged ≡ l.staged
unfolding push_ack
push_ack-Transition h l n = ground arith

push_ack-unchanged : (h : Hub) (l : NotificationLink) (n : ℕ) → Transition h l (push_ack h l n)
push_ack-unchanged h l n =
    let (a, b) = push_ack-Transition h l n in unchanged (ap (λ x. x.state) a) b

module _ (writes : Store → Bool) where
  receive_submit-Transition :
      (h : Hub) (l : NotificationLink) (op : NotificationOperation)
      → is_coordinator h ≡ true
      → Transition h l (receive_submit writes h l op)
  unfolding receive_submit answered commit_store publish
  receive_submit-Transition h l op c = at (apply h.state l.peer op) refl
    where
      at :
          (a : Result HubError (Store × Bool))
          → apply h.state l.peer op ≡ a
          → Transition h l (receive_submit writes h l op)
      at (err e) a = unchanged (ground arith) (ground arith)
      at (ok (s, false)) a = rw (a, receive_submit) (push_ack-unchanged h l op.sequence)
      at (ok (s, true)) a = elim (Bool-cases (writes s)) [
        | inl w ↦
            submitted op s c a
              (ground (arith, push_ack-Transition (publish (record h { state = s })) l op.sequence))
              (ground (arith, push_ack-Transition (publish (record h { state = s })) l op.sequence))
        | inr w ↦ unchanged (ground arith) (ground arith)
      ]

  receive_ack-Transition :
      (h : Hub) (l : NotificationLink) (n : ℕ)
      → is_coordinator h ≡ false
      → Transition h l (receive_ack writes h l n)
  unfolding receive_ack commit_store publish committed
  receive_ack-Transition h l n c = at (acknowledged h n (find_sequence n h.state.pending)) refl
    where
      at :
          (a : Result HubError Store)
          → acknowledged h n (find_sequence n h.state.pending) ≡ a
          → Transition h l (receive_ack writes h l n)
      at (err e) a = unchanged (ground arith) (ground arith)
      at (ok s) a = elim (Bool-cases (has_sequence n h.state.pending)) [
        | inr k ↦ unchanged (ground arith) (ground arith)
        | inl k ↦ elim (Bool-cases (writes s)) [
          | inl w ↦ acked n s c a (ground arith) (ground arith)
          | inr w ↦ unchanged (ground arith) (ground arith)
        ]
      ]

  receive_start-Transition :
      (h : Hub) (l : NotificationLink) (epoch : String)
      → is_coordinator h ≡ false
      → Transition h l (receive_start h l epoch)
  unfolding receive_start
  receive_start-Transition h l epoch c = at (check_start h l epoch) refl
    where
      at :
          (a : Result HubError (Unit {0}))
          → check_start h l epoch ≡ a
          → Transition h l (receive_start h l epoch)
      at (err e) a = rw (a, receive_start) (unchanged refl refl)
      at (ok _) a = rw (a, receive_start) (began epoch c refl refl)

  receive_entry-Transition :
      (h : Hub) (l : NotificationLink) (new : NotificationRecord)
      → Transition h l (receive_entry h l new)
  unfolding receive_entry stage
  receive_entry-Transition h l new = at l.staged refl (validate_entry new new.content) refl
    where
      at :
          (st : Option (String × List NotificationRecord))
          → l.staged ≡ st
          → (v : Result HubError (Unit {0})) → validate_entry new new.content ≡ v
          → Transition h l (receive_entry h l new)
      at st a (err e) v = unchanged (ground arith) (ground arith)
      at none a (ok _) v = unchanged (ground arith) (ground arith)
      at (some (epoch, rs)) a (ok _) v =
          elim (Bool-cases
            (ltb (length rs) max_records && not (is_some (find_record new.key rs)))) [
              | inl w ↦
                  extended epoch rs new a (ground arith) (ground arith) (ground arith)
                    (ground arith)
              | inr w ↦ unchanged (ground arith) (ground arith)
            ]

  receive_end-Transition :
      (h : Hub) (l : NotificationLink)
      → is_coordinator h ≡ false
      → Transition h l (receive_end writes h l)
  unfolding receive_end finish_snapshot commit_store publish committed
  receive_end-Transition h l c = at l.staged refl
    where
      at :
          (st : Option (String × List NotificationRecord))
          → l.staged ≡ st
          → Transition h l (receive_end writes h l)
      at none a = unchanged (ground arith) (ground arith)
      at (some (epoch, rs)) a =
          elim (Bool-cases (str_eq h.state.epoch epoch && records_eq h.state.records rs)) [
            | inl k ↦ dropped (ground arith) (ground arith)
            | inr k ↦
                elim (Bool-cases (writes (record (h.state) { epoch = epoch; records = rs }))) [
                  | inl w ↦ replaced epoch rs c a (ground arith) (ground arith)
                  | inr w ↦ dropped (ground arith) (ground arith)
                ]
          ]

  receive_confirmed-Transition :
      (h : Hub) (l : NotificationLink) (e : NotificationSync)
      → Transition h l (receive_confirmed writes h l e)
  unfolding receive_confirmed
  receive_confirmed-Transition h l (submit op) = elim (Bool-cases (is_coordinator h)) [
    | inl c ↦ rw c (receive_submit-Transition h l op c)
    | inr c ↦ rw c (unchanged refl refl)
  ]
  receive_confirmed-Transition h l (ack n) = elim (Bool-cases (is_coordinator h)) [
    | inl c ↦ rw c (unchanged refl refl)
    | inr c ↦ rw c (receive_ack-Transition h l n c)
  ]
  receive_confirmed-Transition h l (snapshot_start epoch) = elim (Bool-cases (is_coordinator h)) [
    | inl c ↦ rw c (unchanged refl refl)
    | inr c ↦ rw c (receive_start-Transition h l epoch c)
  ]
  receive_confirmed-Transition h l (entry r) = elim (Bool-cases (is_coordinator h)) [
    | inl c ↦ rw c (unchanged refl refl)
    | inr c ↦ rw c (receive_entry-Transition h l r)
  ]
  receive_confirmed-Transition h l snapshot_end = elim (Bool-cases (is_coordinator h)) [
    | inl c ↦ rw c (unchanged refl refl)
    | inr c ↦ rw c (receive_end-Transition h l c)
  ]
  receive_confirmed-Transition h l (settings c) = unchanged refl refl

  receive_other-Transition :
      (h : Hub) (l : NotificationLink) (e : NotificationSync)
      → Transition h l (receive_other writes h l e)
  unfolding receive_other
  receive_other-Transition h l e = elim (Bool-cases l.is_active) [
    | inl a ↦
        subst
          (λ b.
            Transition h l
              (if b then receive_confirmed writes h l e else (h, l, err owner_not_confirmed)))
          (sym a) (receive_confirmed-Transition h l e)
    | inr a ↦ unchanged (ground arith) (ground arith)
  ]

  receive_settings-Transition :
      (h : Hub) (l : NotificationLink) (c : String) → Transition h l (receive_settings h l c)
  unfolding receive_settings
  receive_settings-Transition h l c = unchanged (ground arith) (ground arith)

  pub receive-Transition :
      (h : Hub) (l : NotificationLink) (e : NotificationSync)
      → Transition h l (receive writes h l e)
  unfolding receive
  receive-Transition h l (settings c) = receive_settings-Transition h l c
  receive-Transition h l (submit op) = receive_other-Transition h l (submit op)
  receive-Transition h l (ack n) = receive_other-Transition h l (ack n)
  receive-Transition h l (snapshot_start s) = receive_other-Transition h l (snapshot_start s)
  receive-Transition h l (entry r) = receive_other-Transition h l (entry r)
  receive-Transition h l snapshot_end = receive_other-Transition h l snapshot_end
