-- ===== src/Notification/Store/Lookup.antt =====
-- What a lookup finds after a write.
use mouse_without_borders.Base.{
  ◌≡◌, refl, none, some, List, [], ◌∷◌, ◌++◌, length, if◌then◌else◌, arith,
}
use mouse_without_borders.Protocol.Phone.{NotificationKey, NotificationRecord}
use mouse_without_borders.Notification.Equality.{key_eq, key_eq_iff}
use mouse_without_borders.Notification.Store.{find_record, update_record}

pub find_record_key :
    (key : NotificationKey) (rs : List NotificationRecord) (found : NotificationRecord)
    → find_record key rs ≡ some found
    → found.key ≡ key
unfolding find_record
find_record_key key [] found h = cc
find_record_key key (r ∷ rs) found h =
    ground (arith, key_eq_iff r.key key, find_record_key key rs found)

pub find_record-append :
    (key : NotificationKey) (rs : List NotificationRecord) (new : NotificationRecord)
    → find_record new.key rs ≡ none
    → find_record key (rs ++ new ∷ [])
      ≡ (if key_eq new.key key then some new else find_record key rs)
unfolding find_record
find_record-append key [] new h = refl
find_record-append key (r ∷ rs) new h = ground (
  arith,
  find_record-append key rs new,
  key_eq_iff r.key key,
  key_eq_iff new.key key,
  key_eq_iff r.key new.key,
)

pub find_record-update_record :
    (key at : NotificationKey) (rs : List NotificationRecord) (new old : NotificationRecord)
    → find_record at rs ≡ some old
    → new.key ≡ at
    → find_record key (update_record at new rs)
      ≡ (if key_eq at key then some new else find_record key rs)
unfolding find_record update_record
find_record-update_record key at [] new old h e = cc
find_record-update_record key at (r ∷ rs) new old h e = ground (
  arith,
  find_record-update_record key at rs new old,
  key_eq_iff r.key key,
  key_eq_iff new.key key,
  key_eq_iff at key,
  key_eq_iff r.key at,
)

pub length-update_record :
    (key : NotificationKey) (new : NotificationRecord) (rs : List NotificationRecord)
    → length (update_record key new rs) ≡ length rs
unfolding update_record
length-update_record key new [] = refl
length-update_record key new (r ∷ rs) = ground (arith, length-update_record key new rs)
