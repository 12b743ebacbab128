-- ===== src/Notification/Store/Invariant.antt =====
-- What holds of the history between two calls.
use mouse_without_borders.Base.{
  ℕ, ◌+◌, ◌≤◌, ◌<◌, ◌≡◌, refl, String, Bool, false, Option, none, some, List, [], ◌∷◌, ◌++◌, length,
  length-append, arith, Bool-cases, inl, inr, ok,
}
use mouse_without_borders.Protocol.Phone.{
  NotificationKey, NotificationOperation, NotificationRecord,
}
use mouse_without_borders.Notification.Equality.{key_eq, key_eq_iff}
use mouse_without_borders.Notification.Store.{
  Store, apply, upsert, updated, fresh_record, find_record, find_pending, update_record,
  retain_other, max_records, max_pending,
}
use mouse_without_borders.Notification.Store.Lookup.{find_record_key, length-update_record}
use mouse_without_borders.Notification.Store.Register.{apply-upsert}
use mouse_without_borders.Notification.Store.View.{IsDistinct}

-- No two records have the same key.
abbrev pub IsDistinctRecords : List NotificationRecord → Type 0
IsDistinctRecords [] = Unit {0}
IsDistinctRecords (r ∷ rs) = (find_record r.key rs ≡ none) × IsDistinctRecords rs

-- The numbers rise strictly, from above `lo` to at most `hi`.
abbrev pub IsRising : ℕ → ℕ → List NotificationOperation → Type 0
IsRising lo hi [] = Unit {0}
IsRising lo hi (op ∷ ops) = (lo < op.sequence) × (op.sequence ≤ hi) × IsRising op.sequence hi ops

pub record IsValid (s : Store) : Type 0 where
  pub records_distinct : IsDistinctRecords s.records
  pub records_bounded : length s.records ≤ max_records
  pub pending_distinct : IsDistinct s.pending
  pub pending_bounded : length s.pending ≤ max_pending
  pub pending_rising : IsRising 0 s.sequence s.pending

find_record-append_other :
    (key : NotificationKey) (rs : List NotificationRecord) (new : NotificationRecord)
    → find_record key rs ≡ none
    → key_eq new.key key ≡ false
    → find_record key (rs ++ new ∷ []) ≡ none
unfolding find_record
find_record-append_other key [] new h d = ground arith
find_record-append_other key (r ∷ rs) new h d = ground (arith, find_record-append_other key rs new)

pub append-IsDistinctRecords :
    (rs : List NotificationRecord) (new : NotificationRecord)
    → IsDistinctRecords rs
    → find_record new.key rs ≡ none
    → IsDistinctRecords (rs ++ new ∷ [])
unfolding find_record
append-IsDistinctRecords [] new d h = ground arith
append-IsDistinctRecords (r ∷ rs) new d h = ground (
  arith,
  append-IsDistinctRecords rs new d.1,
  find_record-append_other r.key rs new,
  key_eq_iff r.key new.key,
  key_eq_iff new.key r.key,
)

find_record-update_none :
    (key at : NotificationKey) (rs : List NotificationRecord) (new : NotificationRecord)
    → find_record key rs ≡ none
    → new.key ≡ at
    → find_record key (update_record at new rs) ≡ none
unfolding find_record update_record
find_record-update_none key at [] new h e = refl
find_record-update_none key at (r ∷ rs) new h e = ground (
  arith,
  find_record-update_none key at rs new,
  key_eq_iff r.key at,
  key_eq_iff r.key key,
  key_eq_iff new.key key,
)

update_record-IsDistinctRecords :
    (at : NotificationKey) (rs : List NotificationRecord) (new : NotificationRecord)
    → new.key ≡ at
    → IsDistinctRecords rs
    → IsDistinctRecords (update_record at new rs)
unfolding update_record
update_record-IsDistinctRecords at [] new e d = tt
update_record-IsDistinctRecords at (r ∷ rs) new e d = ground (
  arith,
  update_record-IsDistinctRecords at rs new,
  find_record-update_none r.key at rs new,
  key_eq_iff r.key at,
)

upsert-IsValid :
    (s s' : Store) (op : NotificationOperation) (changed : Bool) (found : Option NotificationRecord)
    → find_record op.key s.records ≡ found
    → upsert s op found ≡ ok (s', changed)
    → IsValid s
    → IsValid s'
unfolding upsert
upsert-IsValid s s' op changed none f h v = ground (
  arith,
  append-IsDistinctRecords s.records (fresh_record op) v.records_distinct,
  length-append s.records (fresh_record op ∷ []),
)
upsert-IsValid s s' op changed (some r) f h v = ground (
  arith,
  find_record_key op.key s.records r,
  update_record-IsDistinctRecords op.key s.records (updated r op),
  length-update_record op.key (updated r op) s.records,
)

pub apply-IsValid :
    (s s' : Store) (sender : String) (op : NotificationOperation) (changed : Bool)
    → apply s sender op ≡ ok (s', changed)
    → IsValid s
    → IsValid s'
apply-IsValid s s' sender op changed h v =
    upsert-IsValid s s' op changed (find_record op.key s.records) refl
      (apply-upsert s s' sender op changed h) v

-- The outbox without an operation.
pub retain_other-gone :
    (key : NotificationKey) (ops : List NotificationOperation)
    → find_pending key (retain_other key ops) ≡ none
unfolding find_pending retain_other
retain_other-gone key [] = refl
retain_other-gone key (op ∷ ops) = ground (arith, retain_other-gone key ops)

retain_other-none :
    (key j : NotificationKey) (ops : List NotificationOperation)
    → find_pending j ops ≡ none
    → find_pending j (retain_other key ops) ≡ none
unfolding find_pending retain_other
retain_other-none key j [] h = refl
retain_other-none key j (op ∷ ops) h = ground (arith, retain_other-none key j ops)

pub retain_other-IsDistinct :
    (key : NotificationKey) (ops : List NotificationOperation)
    → IsDistinct ops
    → IsDistinct (retain_other key ops)
unfolding retain_other
retain_other-IsDistinct key [] d = tt
retain_other-IsDistinct key (op ∷ ops) d =
    ground (arith, retain_other-IsDistinct key ops, retain_other-none key op.key ops)

find_pending-append_none :
    (key : NotificationKey) (ops : List NotificationOperation) (new : NotificationOperation)
    → find_pending key ops ≡ none
    → key_eq new.key key ≡ false
    → find_pending key (ops ++ new ∷ []) ≡ none
unfolding find_pending
find_pending-append_none key [] new h d = ground arith
find_pending-append_none key (op ∷ ops) new h d =
    ground (arith, find_pending-append_none key ops new)

pub append-IsDistinct :
    (ops : List NotificationOperation) (new : NotificationOperation)
    → IsDistinct ops
    → find_pending new.key ops ≡ none
    → IsDistinct (ops ++ new ∷ [])
unfolding find_pending
append-IsDistinct [] new d h = ground arith
append-IsDistinct (op ∷ ops) new d h = ground (
  arith,
  append-IsDistinct ops new d.1,
  find_pending-append_none op.key ops new,
  key_eq_iff op.key new.key,
  key_eq_iff new.key op.key,
)

pub IsRising-mono :
    (ops : List NotificationOperation) (lo lo' hi hi' : ℕ)
    → lo' ≤ lo
    → hi ≤ hi'
    → IsRising lo hi ops
    → IsRising lo' hi' ops
IsRising-mono [] lo lo' hi hi' l h r = tt
IsRising-mono (op ∷ ops) lo lo' hi hi' l h r =
    (omega arith, omega arith, IsRising-mono ops op.sequence op.sequence hi hi' (omega arith) h r.2)

pub retain_other-IsRising :
    (key : NotificationKey) (ops : List NotificationOperation) (lo hi : ℕ)
    → IsRising lo hi ops
    → IsRising lo hi (retain_other key ops)
unfolding retain_other
retain_other-IsRising key [] lo hi r = tt
retain_other-IsRising key (op ∷ ops) lo hi r =
    let rest = retain_other-IsRising key ops op.sequence hi r.2 in
    elim (Bool-cases (key_eq op.key key)) [
      | inl e ↦ rw e (
          IsRising-mono (retain_other key ops) op.sequence lo hi hi (omega arith) (omega arith)
            rest)
      | inr e ↦ rw e (r.0, r.1, rest)
    ]

pub append-IsRising :
    (ops : List NotificationOperation) (new : NotificationOperation) (lo hi : ℕ)
    → lo ≤ hi
    → IsRising lo hi ops
    → new.sequence ≡ hi + 1
    → IsRising lo (hi + 1) (ops ++ new ∷ [])
append-IsRising [] new lo hi le r e = (omega arith, omega arith, tt)
append-IsRising (op ∷ ops) new lo hi le r e =
    (r.0, omega arith, append-IsRising ops new op.sequence hi r.1 r.2 e)

pub length-retain_other :
    (key : NotificationKey) (ops : List NotificationOperation)
    → length (retain_other key ops) ≤ length ops
unfolding retain_other
length-retain_other key [] = omega arith
length-retain_other key (op ∷ ops) = ground (arith, length-retain_other key ops)
