-- ===== src/Notification/Link/Frame.antt =====
-- What no received event changes: who the hub and the peer are.
use mouse_without_borders.Base.{
  ℕ, ltb, String, str_eq, Bool, true, false, ◌≡◌, refl, subst, sym, ◌&&◌, not, Option, none, some,
  is_some, List, length, if◌then◌else◌, Result, ok, err, arith, Bool-cases, inl, inr,
}
use mouse_without_borders.Protocol.Phone.{
  NotificationOperation, NotificationRecord, NotificationSync, submit, ack, snapshot_start, entry,
  snapshot_end, settings,
}
use mouse_without_borders.Notification.Equality.{records_eq}
use mouse_without_borders.Notification.Validation.{HubError, owner_not_confirmed, store_not_written}
use mouse_without_borders.Notification.Store.{Store, apply, upsert, find_record, max_records}
use mouse_without_borders.Notification.Store.Register.{apply-upsert}
use mouse_without_borders.Notification.Hub.{Hub, is_coordinator, commit_store, publish}
use mouse_without_borders.Notification.Link.{
  NotificationLink, Received, receive, receive_submit, receive_ack, receive_start, check_start,
  receive_entry, receive_end, finish_snapshot, stage, receive_confirmed, receive_other,
  receive_settings, push_ack, answered, acknowledged, find_sequence, has_sequence, committed,
  validate_entry,
}

-- Nothing but the list of records.
upsert-fields :
    (s s' : Store) (op : NotificationOperation) (changed : Bool) (found : Option NotificationRecord)
    → upsert s op found ≡ ok (s', changed)
    → s' ≡ record s { records = s'.records }
unfolding upsert
upsert-fields s s' op changed none h = ground arith
upsert-fields s s' op changed (some r) h = ground arith

pub apply-fields :
    (s s' : Store) (sender : String) (op : NotificationOperation) (changed : Bool)
    → apply s sender op ≡ ok (s', changed)
    → s' ≡ record s { records = s'.records }
apply-fields s s' sender op changed h =
    upsert-fields s s' op changed (find_record op.key s.records)
      (apply-upsert s s' sender op changed h)

pub record Framed (h : Hub) (l : NotificationLink) (r : Received) : Type 0 where
  pub identity_kept : r.0.identity ≡ h.identity
  pub owner_kept : r.0.coordinator_fingerprint ≡ h.coordinator_fingerprint
  pub peer_kept : r.1.peer ≡ l.peer

same : {h : Hub} {l : NotificationLink} {x : Result HubError (Unit {0})} → Framed h l (h, l, x)
same = record { identity_kept = refl; owner_kept = refl; peer_kept = refl }

push_ack-Framed : (h : Hub) (l : NotificationLink) (n : ℕ) → Framed h l (push_ack h l n)
unfolding push_ack
push_ack-Framed h l n = elim (Bool-cases (ltb (length l.outgoing) 5124)) [
  | inl a ↦ record {
    identity_kept = ground arith;
    owner_kept = ground arith;
    peer_kept = ground arith;
  }
  | inr a ↦ record {
    identity_kept = ground arith;
    owner_kept = ground arith;
    peer_kept = ground arith;
  }
]

receive_start-Framed :
    (h : Hub) (l : NotificationLink) (epoch : String) → Framed h l (receive_start h l epoch)
unfolding receive_start
receive_start-Framed h l epoch = at (check_start h l epoch) refl
  where
    at :
        (a : Result HubError (Unit {0}))
        → check_start h l epoch ≡ a
        → Framed h l (receive_start h l epoch)
    at (err e) a = rw (a, receive_start) same
    at (ok _) a =
        rw (a, receive_start) (record { identity_kept = refl; owner_kept = refl; peer_kept = refl })

receive_settings-Framed :
    (h : Hub) (l : NotificationLink) (c : String) → Framed h l (receive_settings h l c)
unfolding receive_settings
receive_settings-Framed h l c = record {
  identity_kept = ground arith;
  owner_kept = ground arith;
  peer_kept = ground arith;
}

module _ (writes : Store → Bool) where
  commit_store-Framed :
      (h : Hub) (l l' : NotificationLink) (s : Store)
      → l'.peer ≡ l.peer
      → Framed h l (committed writes l' (commit_store writes h s))
  unfolding commit_store publish committed
  commit_store-Framed h l l' s e = elim (Bool-cases (writes s)) [
    | inl a ↦ record {
      identity_kept = ground arith;
      owner_kept = ground arith;
      peer_kept = ground arith;
    }
    | inr a ↦ record {
      identity_kept = ground arith;
      owner_kept = ground arith;
      peer_kept = ground arith;
    }
  ]

  pub commit_store_ok :
      (h : Hub) (s : Store)
      → writes s ≡ true
      → commit_store writes h s ≡ (publish (record h { state = s }), ok tt)
  unfolding commit_store
  commit_store_ok h s w = rw w refl

  pub commit_store_err :
      (h : Hub) (s : Store)
      → writes s ≡ false
      → commit_store writes h s ≡ (h, err store_not_written)
  unfolding commit_store
  commit_store_err h s w = rw w refl

  receive_submit-Framed :
      (h : Hub) (l : NotificationLink) (op : NotificationOperation)
      → Framed h l (receive_submit writes h l op)
  unfolding receive_submit answered publish
  receive_submit-Framed h l op = at (apply h.state l.peer op) refl
    where
      at :
          (a : Result HubError (Store × Bool))
          → apply h.state l.peer op ≡ a
          → Framed h l (receive_submit writes h l op)
      at (err e) a = rw (a, receive_submit) same
      at (ok (s, false)) a = rw (a, receive_submit) (push_ack-Framed h l op.sequence)
      at (ok (s, true)) a = elim (Bool-cases (writes s)) [
        | inl w ↦
            let q = push_ack-Framed (publish (record h { state = s })) l op.sequence in
            rw (a, receive_submit)
              (rw (commit_store_ok h s w, receive_submit)
                (record {
                  identity_kept = q.identity_kept;
                  owner_kept = q.owner_kept;
                  peer_kept = q.peer_kept;
                }))
        | inr w ↦ rw (a, receive_submit) (rw (commit_store_err h s w, receive_submit) same)
      ]

  receive_ack-Framed :
      (h : Hub) (l : NotificationLink) (n : ℕ) → Framed h l (receive_ack writes h l n)
  unfolding receive_ack
  receive_ack-Framed h l n =
      at (acknowledged h n (find_sequence n h.state.pending)) refl (has_sequence n h.state.pending)
        refl
    where
      at :
          (a : Result HubError Store)
          → acknowledged h n (find_sequence n h.state.pending) ≡ a
          → (k : Bool) → has_sequence n h.state.pending ≡ k
          → Framed h l (receive_ack writes h l n)
      at a e false k = rw (k, receive_ack) same
      at (err x) e true k = rw (k, receive_ack) (rw (e, receive_ack) same)
      at (ok s) e true k =
          rw (k, receive_ack) (rw (e, receive_ack) (commit_store-Framed h l l s refl))

  receive_entry-Framed :
      (h : Hub) (l : NotificationLink) (new : NotificationRecord)
      → Framed h l (receive_entry h l new)
  unfolding receive_entry stage
  receive_entry-Framed h l new = at l.staged (validate_entry new new.content) refl
    where
      staged_Framed :
          (st : Option (String × List NotificationRecord)) → Framed h l (stage h l new st)
      staged_Framed none = same
      staged_Framed (some (epoch, rs)) =
          elim (Bool-cases
            (ltb (length rs) max_records && not (is_some (find_record new.key rs)))) [
              | inl w ↦ rw w (record { identity_kept = refl; owner_kept = refl; peer_kept = refl })
              | inr w ↦ rw w same
            ]

      at :
          (st : Option (String × List NotificationRecord)) (v : Result HubError (Unit {0}))
          → validate_entry new new.content ≡ v
          → Framed h l (receive_entry h l new)
      at st (err e) v = rw (v, receive_entry) same
      at st (ok _) v = rw (v, receive_entry) (staged_Framed l.staged)

  finish_snapshot-Framed :
      (h : Hub) (l : NotificationLink) (st : Option (String × List NotificationRecord))
      → Framed h l (finish_snapshot writes h l st)
  unfolding finish_snapshot
  finish_snapshot-Framed h l none = same
  finish_snapshot-Framed h l (some (epoch, rs)) =
      elim (Bool-cases (str_eq h.state.epoch epoch && records_eq h.state.records rs)) [
        | inl w ↦ rw w (record { identity_kept = refl; owner_kept = refl; peer_kept = refl })
        | inr w ↦ rw w (
            commit_store-Framed h l (record l { staged = none })
              (record (h.state) { epoch = epoch; records = rs }) refl)
      ]

  if_coordinator :
      (h : Hub) (l : NotificationLink) (r r' : Received)
      → Framed h l r
      → Framed h l r'
      → Framed h l (if is_coordinator h then r else r')
  if_coordinator h l r r' a b = elim (Bool-cases (is_coordinator h)) [
    | inl c ↦ rw c a
    | inr c ↦ rw c b
  ]

  receive_confirmed-Framed :
      (h : Hub) (l : NotificationLink) (e : NotificationSync)
      → Framed h l (receive_confirmed writes h l e)
  unfolding receive_confirmed receive_end
  receive_confirmed-Framed h l (submit op) =
      if_coordinator h l _ _ (receive_submit-Framed h l op) same
  receive_confirmed-Framed h l (ack n) = if_coordinator h l _ _ same (receive_ack-Framed h l n)
  receive_confirmed-Framed h l (snapshot_start epoch) =
      if_coordinator h l _ _ same (receive_start-Framed h l epoch)
  receive_confirmed-Framed h l (entry r) = if_coordinator h l _ _ same (receive_entry-Framed h l r)
  receive_confirmed-Framed h l snapshot_end =
      if_coordinator h l _ _ same (finish_snapshot-Framed h l l.staged)
  receive_confirmed-Framed h l (settings c) = same

  receive_other-Framed :
      (h : Hub) (l : NotificationLink) (e : NotificationSync)
      → Framed h l (receive_other writes h l e)
  unfolding receive_other
  receive_other-Framed h l e = elim (Bool-cases l.is_active) [
    | inl a ↦
        subst
          (λ b.
            Framed h l
              (if b then receive_confirmed writes h l e else (h, l, err owner_not_confirmed)))
          (sym a) (receive_confirmed-Framed h l e)
    | inr a ↦
        subst
          (λ b.
            Framed h l
              (if b then receive_confirmed writes h l e else (h, l, err owner_not_confirmed)))
          (sym a) same
  ]

  pub receive-Framed :
      (h : Hub) (l : NotificationLink) (e : NotificationSync) → Framed h l (receive writes h l e)
  unfolding receive
  receive-Framed h l (settings c) = receive_settings-Framed h l c
  receive-Framed h l (submit op) = receive_other-Framed h l (submit op)
  receive-Framed h l (ack n) = receive_other-Framed h l (ack n)
  receive-Framed h l (snapshot_start s) = receive_other-Framed h l (snapshot_start s)
  receive-Framed h l (entry r) = receive_other-Framed h l (entry r)
  receive-Framed h l snapshot_end = receive_other-Framed h l snapshot_end
