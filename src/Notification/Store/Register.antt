-- ===== src/Notification/Store/Register.antt =====
-- Each key of the history is a register: the newest content, or removed for good.
use mouse_without_borders.Base.{
  ℕ, ◌≡◌, Bool, ltb, Option, none, some, if◌then◌else◌, arith, Option-cases, inl, inr, ok, String,
}
use mouse_without_borders.Protocol.Phone.{
  NotificationKey, SharedNotification, NotificationOperation, NotificationRecord,
}
use mouse_without_borders.Notification.Equality.{key_eq, key_eq_iff}
use mouse_without_borders.Notification.Store.{
  Store, find_record, updated, fresh_record, upsert, apply,
}
use mouse_without_borders.Notification.Store.Lookup.{
  find_record_key, find_record-append, find_record-update_record,
}

-- The sequence number of a removed record is forgotten.
pub data Slot : Type 0 where
  absent : Slot
  live : ℕ → SharedNotification → Slot
  removed : Slot

abbrev pub slot : ℕ → Option SharedNotification → Slot
slot n none = removed
slot n (some content) = live n content

abbrev pub slot_of_record : Option NotificationRecord → Slot
slot_of_record none = absent
slot_of_record (some r) = slot r.source_sequence r.content

-- What the history holds under a key.
abbrev pub slot_at : NotificationKey → Store → Slot
slot_at key s = slot_of_record (find_record key s.records)

abbrev pub operation_slot : NotificationOperation → Slot
operation_slot op = slot op.sequence op.content

-- The newer content wins, the older one on a tie; a removal wins over everything.
abbrev pub join : Slot → Slot → Slot
join absent b = b
join removed b = removed
join (live m c) absent = live m c
join (live m c) removed = removed
join (live m c) (live n d) = if ltb m n then live n d else live m c

upsert-none :
    (s s' : Store) (op : NotificationOperation) (changed : Bool) (key : NotificationKey)
    → find_record op.key s.records ≡ none
    → upsert s op none ≡ ok (s', changed)
    → slot_at key s'
      ≡ (if key_eq op.key key then join (slot_at key s) (operation_slot op) else slot_at key s)
unfolding upsert
upsert-none s s' op changed key f h =
    ground (arith, find_record-append key s.records (fresh_record op), key_eq_iff op.key key)

upsert-some :
    (s s' : Store) (op : NotificationOperation) (changed : Bool) (key : NotificationKey)
    (r : NotificationRecord)
    → find_record op.key s.records ≡ some r
    → upsert s op (some r) ≡ ok (s', changed)
    → slot_at key s'
      ≡ (if key_eq op.key key then join (slot_at key s) (operation_slot op) else slot_at key s)
unfolding upsert
upsert-some s s' op changed key r f h = ground (
  arith,
  find_record_key op.key s.records r,
  find_record-update_record key op.key s.records (updated r op) r,
  key_eq_iff op.key key,
)

pub apply-upsert :
    (s s' : Store) (sender : String) (op : NotificationOperation) (changed : Bool)
    → apply s sender op ≡ ok (s', changed)
    → upsert s op (find_record op.key s.records) ≡ ok (s', changed)
unfolding apply
apply-upsert s s' sender op changed h = ground arith

-- An operation that is accepted joins its content into its own key, and touches no other key.
pub apply_joins :
    (s s' : Store) (sender : String) (op : NotificationOperation) (changed : Bool)
    (key : NotificationKey)
    → apply s sender op ≡ ok (s', changed)
    → slot_at key s'
      ≡ (if key_eq op.key key then join (slot_at key s) (operation_slot op) else slot_at key s)
apply_joins s s' sender op changed key h =
    let u = apply-upsert s s' sender op changed h in
    elim (Option-cases (find_record op.key s.records)) [
      | inl e ↦ upsert-none s s' op changed key e (rw e at u)
      | inr (r, e) ↦ upsert-some s s' op changed key r e (rw e at u)
    ]
