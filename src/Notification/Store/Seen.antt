-- ===== src/Notification/Store/Seen.antt =====
-- A change made on this PC is seen at once.
use mouse_without_borders.Base.{
  ◌+◌, ◌≤◌, ◌<◌, ◌≡◌, ◌≢◌, refl, subst, sym, ◌∙◌, true, false, Option, none, some, List, [], ◌∷◌,
  ◌++◌, length, length-append, arith, Option-cases, inl, inr, ◌⊎◌, ok, eq_iff,
}
use mouse_without_borders.Protocol.Phone.{
  NotificationKey, SharedNotification, NotificationOperation, NotificationRecord,
}
use mouse_without_borders.Notification.Equality.{key_eq_iff, key_eq_refl}
use mouse_without_borders.Notification.Validation.{validate_key}
use mouse_without_borders.Notification.Store.{
  Store, check_operation, validate_local, find_record, find_pending, retain_other, queue_local,
  max_records, is_settled, view, record_of, overlaid, kept, upsert, pop_last, updated, fresh_record,
  update_record,
}
use mouse_without_borders.Notification.Store.Invariant.{
  IsValid, retain_other-IsDistinct, retain_other-gone, append-IsDistinct,
}
use mouse_without_borders.Notification.Store.View.{
  IsDistinct, record_of-view, overlaid-accepted, overlaid-refused, overlaid-none,
  find_record-apply_pending, check_cases,
}
use mouse_without_borders.Notification.Store.Lookup.{find_record_key}
use mouse_without_borders.Notification.Equality.{option_content_eq_refl}
use mouse_without_borders.Notification.Store.Outbox.{
  next_operation, with_pending, queue_local-IsQueued,
}

find_pending-append_self :
    (ops : List NotificationOperation) (new : NotificationOperation)
    → find_pending new.key ops ≡ none
    → find_pending new.key (ops ++ new ∷ []) ≡ some new
unfolding find_pending
find_pending-append_self [] new h = ground (arith, key_eq_refl new.key)
find_pending-append_self (op ∷ ops) new h = ground (arith, find_pending-append_self ops new)

next_operation-checked :
    (s : Store) (key : NotificationKey) (content : Option SharedNotification)
    → validate_key key ≡ ok tt
    → validate_local s (next_operation s key content) content ≡ ok tt
    → check_operation s.local_identity (next_operation s key content) ≡ ok tt
unfolding check_operation validate_local
next_operation-checked s key none k l = ground arith
next_operation-checked s key (some c) k l = ground (arith, eq_iff key.origin s.local_identity)

-- A removed record is what the view shows, whatever waits in the outbox.
removed-overlaid :
    (s : Store) (op : NotificationOperation) (r : NotificationRecord) (rs : List NotificationRecord)
    → find_record op.key rs ≡ some r
    → r.content ≡ none
    → overlaid s (some r) (some op) ≡ some r
unfolding upsert kept pop_last
removed-overlaid s op r rs f gone = elim (check_cases s.local_identity op) [
  | inl h ↦ overlaid-accepted s op (some r) rs h f ∙ rw gone refl
  | inr (e, h) ↦ overlaid-refused s op e (some r) h
]

find_pending_key :
    (key : NotificationKey) (ops : List NotificationOperation) (op : NotificationOperation)
    → find_pending key ops ≡ some op
    → op.key ≡ key
unfolding find_pending
find_pending_key key [] op h = cc
find_pending_key key (o ∷ ops) op h =
    ground (arith, key_eq_iff o.key key, find_pending_key key ops op)

removed-view :
    (s : Store) (key : NotificationKey) (r : NotificationRecord)
    → IsDistinct s.pending
    → length s.records + length s.pending ≤ max_records
    → find_record key s.records ≡ some r
    → r.content ≡ none
    → find_record key (view s) ≡ some r
unfolding view
removed-view s key r d room f gone =
    find_record-apply_pending s.pending s s key d room
    ∙ rw f (elim (Option-cases (find_pending key s.pending)) [
      | inl e ↦ rw e (overlaid-none s (some r))
      | inr (op, e) ↦ rw e (
          removed-overlaid s op r s.records
            (subst (λ k. find_record k s.records ≡ some r)
              (sym (find_pending_key key s.pending op e)) f)
            gone)
    ])

-- What the overlay of a new operation shows.
shown :
    (s : Store) (op : NotificationOperation) (found : Option NotificationRecord)
    (rs : List NotificationRecord)
    → check_operation s.local_identity op ≡ ok tt
    → find_record op.key rs ≡ found
    → ((r : NotificationRecord) → found ≡ some r → r.content ≢ none)
    → (op.content ≡ none)
      ⊎ ((r : NotificationRecord) → found ≡ some r → r.source_sequence < op.sequence)
    → (r : NotificationRecord) × (overlaid s found (some op) ≡ some r) × (r.content ≡ op.content)
unfolding upsert kept pop_last update_record
shown s op none rs h f live newer = (fresh_record op, overlaid-accepted s op none rs h f, refl)
shown s op (some r) rs h f live (inr newer) = (
  updated r op,
  overlaid-accepted s op (some r) rs h f
      ∙ ground (arith, live r refl, newer r refl, find_record_key op.key rs r, key_eq_refl op.key),
  refl,
)
shown s op (some r) rs h f live (inl gone) = (
  updated r op,
  overlaid-accepted s op (some r) rs h f
      ∙ ground (arith, live r refl, find_record_key op.key rs r, key_eq_refl op.key),
  refl,
)

removed-settled :
    (content : Option SharedNotification) (r : NotificationRecord)
    → r.content ≡ none
    → is_settled content (some r) ≡ true
unfolding is_settled
removed-settled content r gone = rw gone refl

same-settled :
    (content : Option SharedNotification) (r : NotificationRecord)
    → r.content ≡ content
    → is_settled content (some r) ≡ true
unfolding is_settled
same-settled content r e = ground (arith, option_content_eq_refl content)

with_pending-IsDistinct :
    (s : Store) (key : NotificationKey) (content : Option SharedNotification)
    → IsValid s
    → IsDistinct (with_pending s key content).pending
with_pending-IsDistinct s key content v =
    append-IsDistinct (retain_other key s.pending) (next_operation s key content)
      (retain_other-IsDistinct key s.pending v.pending_distinct) (retain_other-gone key s.pending)

record_of-with_pending :
    (s : Store) (key : NotificationKey) (content : Option SharedNotification)
    → record_of (with_pending s key content) key
      ≡ overlaid s (find_record key s.records) (some (next_operation s key content))
unfolding record_of overlaid
record_of-with_pending s key content =
    rw
      (find_pending-append_self (retain_other key s.pending) (next_operation s key content)
        (retain_other-gone key s.pending))
      refl

queue_local-room :
    (s : Store) (key : NotificationKey) (content : Option SharedNotification)
    → length s.records + length (retain_other key s.pending) < max_records
    → length (with_pending s key content).records + length (with_pending s key content).pending
      ≤ max_records
queue_local-room s key content h =
    omega (arith, length-append (retain_other key s.pending) (next_operation s key content ∷ []))

-- A change that a replica queues shows in its view at once with just that content, and queueing it
-- again changes nothing: in a valid history whose records and outbox together fit the capacity, if
-- the change is a removal or no record of the key carries a number above the counter.
pub queue_local_seen :
    (s s' : Store) (key : NotificationKey) (content : Option SharedNotification)
    → IsValid s
    → length s.records + length s.pending ≤ max_records
    → (content ≡ none)
      ⊎ ((r : NotificationRecord)
          → find_record key s.records ≡ some r
          → r.source_sequence ≤ s.sequence)
    → queue_local s key content false ≡ ok (s', true)
    → ((r : NotificationRecord) × (find_record key (view s') ≡ some r) × (r.content ≡ content))
      × (queue_local s' key content false ≡ ok (s', false))
unfolding queue_local
queue_local_seen s s' key content v fit newer h =
    let q = queue_local-IsQueued s s' key content h in
    let t = with_pending s key content in
    let op = next_operation s key content in
    let seen =
      shown s op (find_record key s.records) s.records
        (next_operation-checked s key content q.key_ok q.local_ok) refl
        (λ r f gone. cc (
          q.unsettled,
          removed-settled content r gone,
          removed-view s key r v.pending_distinct fit f gone,
        ))
        (elim newer [ inl gone ↦ inl gone | inr old ↦ inr (λ r f. omega (arith, old r f)) ]) in
    let found : find_record key (view t) ≡ some seen.0 =
      sym (
        record_of-view t key (with_pending-IsDistinct s key content v)
          (queue_local-room s key content q.room))
      ∙ record_of-with_pending s key content
      ∙ seen.1 in
    (
      subst
          (λ x.
            (r : NotificationRecord) × (find_record key (view x) ≡ some r) × (r.content ≡ content))
          (sym q.made) (seen.0, found, seen.2),
      subst (λ x. queue_local x key content false ≡ ok (x, false)) (sym q.made)
          (rw (found, same-settled content seen.0 seen.2) refl),
    )
