-- ===== src/Notification/Store.antt =====
-- The durable history (apps/edge-receiver-linux/src/notification_hub.rs: `Store`). A method that
-- fails changes nothing that its callers keep: `queue_local` works on a copy.
pub mod Lookup
pub mod Register
pub mod Convergence
pub mod View
pub mod Invariant
pub mod Outbox
pub mod Seen
use mouse_without_borders.Base.{
  ℕ, ◌+◌, String, str_eq, Bool, true, false, ◌&&◌, ◌||◌, ◌==◌, ltb, not, Option, none, some, List,
  [], ◌∷◌, ◌++◌, length, is_empty, if◌then◌else◌, Result, ok, err, ◌>>=◌, ◌>>◌, fail_if, ok_or,
}
use mouse_without_borders.Base.Bytes.{checked_u64}
use mouse_without_borders.Protocol.Phone.{
  NotificationKey, SharedNotification, NotificationOperation, NotificationRecord,
}
use mouse_without_borders.Notification.Equality.{key_eq, option_content_eq}
use mouse_without_borders.Notification.Validation.{
  HubError, zero_sequence, source_impersonation, state_full, sequence_exhausted,
  invalid_local_origin, outbox_full, ensure, validate_key, validate_content,
}

abbrev pub max_records : ℕ
max_records = 4096

abbrev pub max_pending : ℕ
max_pending = 1024

pub record PhoneInstance : Type 0 where
  pub instance_id : String  -- `instance`
  pub present : Bool

pub record Store : Type 0 where
  pub coordinator : String
  pub epoch : String
  pub local_identity : String
  pub sequence : ℕ  -- u64
  pub records : List NotificationRecord
  pub pending : List NotificationOperation
  pub phone_instances : List (String × PhoneInstance)
  pub imported_phones : List (String × String)

-- `Store::default()`, as `record` uses it.
abbrev pub empty_store : Store
empty_store = record {
  coordinator = "";
  epoch = "";
  local_identity = "";
  sequence = 0;
  records = [];
  pending = [];
  phone_instances = [];
  imported_phones = [];
}

unfoldable pub any_foreign : String → List NotificationOperation → Bool
any_foreign identity [] = false
any_foreign identity (op ∷ ops) = not (str_eq op.key.origin identity) || any_foreign identity ops

unfoldable pub coordinator_locked : Store → Bool
unfolding any_foreign
coordinator_locked s =
    not (str_eq s.epoch "") || not (is_empty s.records) || any_foreign s.local_identity s.pending

-- `iter().find(|r| r.key == key)` on records and on operations.
unfoldable pub find_record : NotificationKey → List NotificationRecord → Option NotificationRecord
find_record key [] = none
find_record key (r ∷ rs) = if key_eq r.key key then some r else find_record key rs

unfoldable pub find_pending :
    NotificationKey → List NotificationOperation → Option NotificationOperation
find_pending key [] = none
find_pending key (op ∷ ops) = if key_eq op.key key then some op else find_pending key ops

-- The write through `iter_mut().find(..)`.
unfoldable pub update_record :
    NotificationKey → NotificationRecord → List NotificationRecord → List NotificationRecord
update_record key new [] = []
update_record key new (r ∷ rs) = if key_eq r.key key then new ∷ rs else r ∷ update_record key new rs

abbrev pub is_removal : Option SharedNotification → Bool
is_removal none = true
is_removal (some content) = false

-- The two assignments to the record that was found.
abbrev pub updated : NotificationRecord → NotificationOperation → NotificationRecord
updated r op = record r {
  content = op.content;
  source_sequence = if is_removal op.content then r.source_sequence else op.sequence;
}

abbrev pub fresh_record : NotificationOperation → NotificationRecord
fresh_record op = record { key = op.key; source_sequence = op.sequence; content = op.content }

unfoldable pub upsert :
    Store → NotificationOperation → Option NotificationRecord → Result HubError (Store × Bool)
upsert s op (some r) =
    if is_removal r.content
    then ok (s, false)
    else if is_removal op.content || ltb r.source_sequence op.sequence
    then ok (record s { records = update_record op.key (updated r op) s.records }, true)
    else ok (s, false)
upsert s op none = do
  ensure (ltb (length s.records) max_records) state_full
  ok (record s { records = s.records ++ fresh_record op ∷ [] }, true)

-- Content comes from its own source only.
unfoldable pub validate_source :
    String → NotificationOperation → Option SharedNotification → Result HubError (Unit {0})
validate_source sender op none = ok tt
validate_source sender op (some content) = do
  ensure (str_eq op.key.origin sender) source_impersonation
  validate_content content

-- The checks of `apply` before it looks for the record.
unfoldable pub check_operation : String → NotificationOperation → Result HubError (Unit {0})
unfolding validate_source
check_operation sender op = do
  validate_key op.key
  ensure (ltb 0 op.sequence) zero_sequence
  validate_source sender op op.content

unfoldable pub apply : Store → String → NotificationOperation → Result HubError (Store × Bool)
unfolding check_operation upsert
apply s sender op = do check_operation sender op; upsert s op (find_record op.key s.records)

-- `let _ = overlay.apply(..)`: a failure leaves the store alone.
unfoldable pub kept : Store → Result HubError (Store × Bool) → Store
kept s (ok (s', changed)) = s'
kept s (err e) = s

unfoldable pub apply_pending : Store → String → List NotificationOperation → Store
unfolding kept
apply_pending s sender [] = s
apply_pending s sender (op ∷ ops) = apply_pending (kept s (apply s sender op)) sender ops

unfoldable pub view : Store → List NotificationRecord
unfolding apply_pending
view s = (apply_pending s s.local_identity s.pending).records

abbrev pub to_list : Option NotificationRecord → List NotificationRecord
to_list none = []
to_list (some r) = r ∷ []

-- `records.pop()`.
unfoldable pub pop_last : List NotificationRecord → Option NotificationRecord
pop_last [] = none
pop_last (r ∷ []) = some r
pop_last (r ∷ (r' ∷ rs)) = pop_last (r' ∷ rs)

unfoldable pub overlaid :
    Store → Option NotificationRecord → Option NotificationOperation → Option NotificationRecord
unfolding kept pop_last
overlaid s current none = current
overlaid s current (some op) =
    let overlay = record empty_store { records = to_list current } in
    pop_last (kept overlay (apply overlay s.local_identity op)).records

-- `Store::record`.
unfoldable pub record_of : Store → NotificationKey → Option NotificationRecord
unfolding overlaid
record_of s key = overlaid s (find_record key s.records) (find_pending key s.pending)

-- The first test of `queue_local`.
unfoldable pub is_settled : Option SharedNotification → Option NotificationRecord → Bool
is_settled content none = false
is_settled content (some r) = is_removal r.content || option_content_eq r.content content

-- `pending.retain(|pending| pending.key != key)`.
unfoldable pub retain_other :
    NotificationKey → List NotificationOperation → List NotificationOperation
retain_other key [] = []
retain_other key (op ∷ ops) =
    let rest = retain_other key ops in if key_eq op.key key then rest else op ∷ rest

unfoldable pub validate_local :
    Store → NotificationOperation → Option SharedNotification → Result HubError (Unit {0})
validate_local s op none = ok tt
validate_local s op (some content) = do
  validate_content content
  ensure (str_eq op.key.origin s.local_identity) invalid_local_origin

-- A coordinator applies its operation, a replica keeps it in the outbox.
unfoldable pub enqueue_operation :
    Store → NotificationOperation → Bool → Result HubError (Store × Bool)
enqueue_operation s op true = do applied ← apply s s.local_identity op; ok (applied.0, true)
enqueue_operation s op false = do
  let retained = retain_other op.key s.pending
  ensure (ltb (length retained) max_pending && ltb (length s.records + length retained) max_records)
      outbox_full
  ok (record s { pending = retained ++ op ∷ [] }, true)

unfoldable pub queue_local :
    Store → NotificationKey → Option SharedNotification → Bool → Result HubError (Store × Bool)
unfolding validate_local enqueue_operation
queue_local s key content coordinator =
    if is_settled content (find_record key (view s)) then ok (s, false) else do
      sequence ← ok_or (checked_u64 (s.sequence + 1)) sequence_exhausted
      let op : NotificationOperation = record { sequence = sequence; key = key; content = content }
      let s' = record s { sequence = sequence }
      validate_key key
      validate_local s' op content
      enqueue_operation s' op coordinator
