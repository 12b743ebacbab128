-- ===== src/Notification/Store/View.antt =====
-- The optimistic view: the accepted records with the outbox applied to them.
use mouse_without_borders.Base.{
  ◌+◌, ◌≤◌, ◌<◌, ◌≡◌, refl, sym, subst, ap, ◌∙◌, String, false, Option, none, some, List, [], ◌∷◌,
  length, length-append, arith, Bool-cases, inl, inr, ◌⊎◌, Result, ok, err,
}
use mouse_without_borders.Protocol.Phone.{
  NotificationKey, NotificationOperation, NotificationRecord,
}
use mouse_without_borders.Notification.Equality.{key_eq, key_eq_iff, key_eq_refl}
use mouse_without_borders.Notification.Validation.{HubError}
use mouse_without_borders.Notification.Store.{
  Store, empty_store, check_operation, apply, upsert, updated, fresh_record, kept, apply_pending,
  view, find_record, find_pending, update_record, overlaid, to_list, pop_last, record_of,
  max_records,
}
use mouse_without_borders.Notification.Store.Lookup.{
  find_record_key, find_record-append, find_record-update_record, length-update_record,
}

-- No two operations have the same key.
abbrev pub IsDistinct : List NotificationOperation → Type 0
IsDistinct [] = Unit {0}
IsDistinct (op ∷ ops) = (find_pending op.key ops ≡ none) × IsDistinct ops

pub check_cases :
    (sender : String) (op : NotificationOperation)
    → (check_operation sender op ≡ ok tt) ⊎ ((e : HubError) × (check_operation sender op ≡ err e))
check_cases sender op = at (check_operation sender op) refl
  where
    at :
        (r : Result HubError (Unit {0}))
        → check_operation sender op ≡ r
        → (check_operation sender op ≡ ok tt)
          ⊎ ((e : HubError) × (check_operation sender op ≡ err e))
    at (ok tt) h = inl h
    at (err e) h = inr (e, h)

-- A refused operation changes nothing; an accepted one is what `upsert` makes of it.
kept_refused :
    (s : Store) (sender : String) (op : NotificationOperation) (e : HubError)
    → check_operation sender op ≡ err e
    → kept s (apply s sender op) ≡ s
unfolding kept apply
kept_refused s sender op e h = rw h refl

kept_accepted :
    (s : Store) (sender : String) (op : NotificationOperation)
    → check_operation sender op ≡ ok tt
    → kept s (apply s sender op) ≡ kept s (upsert s op (find_record op.key s.records))
unfolding apply
kept_accepted s sender op h = rw h refl

length-upsert :
    (s : Store) (op : NotificationOperation) (found : Option NotificationRecord)
    → length (kept s (upsert s op found)).records ≤ length s.records + 1
unfolding kept upsert
length-upsert s op none = ground (arith, length-append s.records (fresh_record op ∷ []))
length-upsert s op (some r) = ground (arith, length-update_record op.key (updated r op) s.records)

pub length-kept :
    (s : Store) (sender : String) (op : NotificationOperation)
    → length (kept s (apply s sender op)).records ≤ length s.records + 1
length-kept s sender op = elim (check_cases sender op) [
  | inl h ↦ rw (kept_accepted s sender op h) (length-upsert s op (find_record op.key s.records))
  | inr (e, h) ↦ rw (kept_refused s sender op e h) (omega arith)
]

-- An operation leaves the other keys alone.
other-upsert :
    (s : Store) (op : NotificationOperation) (key : NotificationKey)
    (found : Option NotificationRecord)
    → find_record op.key s.records ≡ found
    → key_eq op.key key ≡ false
    → find_record key (kept s (upsert s op found)).records ≡ find_record key s.records
unfolding kept upsert
other-upsert s op key none f h = ground (arith, find_record-append key s.records (fresh_record op))
other-upsert s op key (some r) f h = ground (
  arith,
  find_record_key op.key s.records r,
  find_record-update_record key op.key s.records (updated r op) r,
)

find_record-kept_other :
    (s : Store) (sender : String) (op : NotificationOperation) (key : NotificationKey)
    → key_eq op.key key ≡ false
    → find_record key (kept s (apply s sender op)).records ≡ find_record key s.records
find_record-kept_other s sender op key d = elim (check_cases sender op) [
  | inl h ↦
      rw (kept_accepted s sender op h) (other-upsert s op key (find_record op.key s.records) refl d)
  | inr (e, h) ↦ rw (kept_refused s sender op e h) refl
]

-- On its own key it does what it does to that record alone.
same-upsert :
    (t : Store) (op : NotificationOperation) (found : Option NotificationRecord)
    → find_record op.key t.records ≡ found
    → length t.records < max_records
    → let overlay = record empty_store { records = to_list found } in
      find_record op.key (kept t (upsert t op found)).records
      ≡ pop_last (kept overlay (upsert overlay op found)).records
unfolding kept upsert pop_last update_record
same-upsert t op none f room =
    ground (arith, find_record-append op.key t.records (fresh_record op), key_eq_refl op.key)
same-upsert t op (some r) f room = ground (
  arith,
  find_record_key op.key t.records r,
  find_record-update_record op.key op.key t.records (updated r op) r,
  key_eq_refl op.key,
)

find_record-to_list :
    (key : NotificationKey) (found : Option NotificationRecord) (rs : List NotificationRecord)
    → find_record key rs ≡ found
    → find_record key (to_list found) ≡ found
unfolding find_record
find_record-to_list key none rs h = refl
find_record-to_list key (some r) rs h = rw (find_record_key key rs r h) (rw (key_eq_refl key) refl)

pub overlaid-refused :
    (s : Store) (op : NotificationOperation) (e : HubError) (found : Option NotificationRecord)
    → check_operation s.local_identity op ≡ err e
    → overlaid s found (some op) ≡ found
unfolding overlaid apply kept pop_last
overlaid-refused s op e none h = rw h refl
overlaid-refused s op e (some r) h = rw h refl

pub overlaid-accepted :
    (s : Store) (op : NotificationOperation) (found : Option NotificationRecord)
    (rs : List NotificationRecord)
    → check_operation s.local_identity op ≡ ok tt
    → find_record op.key rs ≡ found
    → let overlay = record empty_store { records = to_list found } in
      overlaid s found (some op) ≡ pop_last (kept overlay (upsert overlay op found)).records
unfolding overlaid
overlaid-accepted s op found rs h f =
    let overlay : Store = record empty_store { records = to_list found } in
    ap (λ x. pop_last x.records) (kept_accepted overlay s.local_identity op h)
    ∙ ap (λ o. pop_last (kept overlay (upsert overlay op o)).records)
        (find_record-to_list op.key found rs f)

find_record-kept_same :
    (s t : Store) (op : NotificationOperation)
    → length t.records < max_records
    → find_record op.key (kept t (apply t s.local_identity op)).records
      ≡ overlaid s (find_record op.key t.records) (some op)
find_record-kept_same s t op room = elim (check_cases s.local_identity op) [
  | inl h ↦
      ap (λ x. find_record op.key x.records) (kept_accepted t s.local_identity op h)
      ∙ same-upsert t op (find_record op.key t.records) refl room
      ∙ sym (overlaid-accepted s op (find_record op.key t.records) t.records h refl)
  | inr (e, h) ↦
      ap (λ x. find_record op.key x.records) (kept_refused t s.local_identity op e h)
      ∙ sym (overlaid-refused s op e (find_record op.key t.records) h)
]

pub overlaid-none : (s : Store) (found : Option NotificationRecord) → overlaid s found none ≡ found
unfolding overlaid
overlaid-none s found = refl

-- A lookup after the whole outbox is a lookup with the one operation of that key.
pub find_record-apply_pending :
    (ops : List NotificationOperation) (s t : Store) (key : NotificationKey)
    → IsDistinct ops
    → length t.records + length ops ≤ max_records
    → find_record key (apply_pending t s.local_identity ops).records
      ≡ overlaid s (find_record key t.records) (find_pending key ops)
unfolding apply_pending find_pending
find_record-apply_pending [] s t key d room = sym (overlaid-none s (find_record key t.records))
find_record-apply_pending (op ∷ ops) s t key d room =
    let t' = kept t (apply t s.local_identity op) in
    let later =
      find_record-apply_pending ops s t' key d.1
        (omega (arith, length-kept t s.local_identity op)) in
    elim (Bool-cases (key_eq op.key key)) [
      | inl e ↦
          let same = (key_eq_iff op.key key).0 e in
          let gone : find_pending key ops ≡ none =
            subst (λ k. find_pending k ops ≡ none) same d.0 in
          rw (e, later, gone, overlaid-none s (find_record key t'.records))
            (subst (λ k. find_record k t'.records ≡ overlaid s (find_record k t.records) (some op))
              same (find_record-kept_same s t op (omega arith)))
      | inr e ↦ rw (e, later, find_record-kept_other t s.local_identity op key e) refl
    ]

-- The lookup of one key in the optimistic view, which does not copy the history, finds what the
-- whole view holds under that key: if the outbox has one operation for each key, and the records
-- and the outbox together fit the capacity.
pub record_of-view :
    (s : Store) (key : NotificationKey)
    → IsDistinct s.pending
    → length s.records + length s.pending ≤ max_records
    → record_of s key ≡ find_record key (view s)
unfolding record_of view
record_of-view s key d room = sym (find_record-apply_pending s.pending s s key d room)
