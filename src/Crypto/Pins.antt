-- ===== src/Crypto/Pins.antt =====
-- The pinned keys of PCs and phones (crates/edge-crypto/src/lib.rs: `PinStore`, `PinStatus`). The
-- maps are the standard library's `BTreeMap` with texts as keys: only lookup, insertion, removal
-- and a test of all values are used, so their order is left out. `BTreeSet<PhoneFeature>` is one
-- flag for each of the three features.
pub mod Separation
use mouse_without_borders.Base.{
  String, str_eq, Bool, true, false, ◌||◌, Option, none, some, List, [], ◌∷◌, if◌then◌else◌,
}

pub record PinnedPeer : Type 0 where
  pub fingerprint : String

pub record PhoneFeatures : Type 0 where
  pub clipboard : Bool
  pub notifications : Bool
  pub audio : Bool

abbrev pub all_features : PhoneFeatures
all_features = record { clipboard = true; notifications = true; audio = true }

pub record PinnedPhone : Type 0 where
  pub fingerprint : String
  pub allowed_features : PhoneFeatures

pub record PinStore : Type 0 where
  pub peers : List (String × PinnedPeer)
  pub phones : List (String × PinnedPhone)

abbrev pub empty : PinStore
empty = record { peers = []; phones = [] }

module _ {V : Type 0} where
  unfoldable pub get : String → List (String × V) → Option V
  get k [] = none
  get k ((j, v) ∷ m) = if str_eq j k then some v else get k m

  unfoldable pub insert : String → V → List (String × V) → List (String × V)
  insert k v [] = (k, v) ∷ []
  insert k v ((j, w) ∷ m) = if str_eq j k then (k, v) ∷ m else (j, w) ∷ insert k v m

  unfoldable pub remove : String → List (String × V) → List (String × V)
  remove k [] = []
  remove k ((j, v) ∷ m) = if str_eq j k then remove k m else (j, v) ∷ remove k m

  unfoldable pub any_value : (V → Bool) → List (String × V) → Bool
  any_value p [] = false
  any_value p ((j, v) ∷ m) = p v || any_value p m

pub data PinStatus : Type 0 where
  trusted unknown : PinStatus
  changed : String → PinStatus

abbrev pub is_trusted : PinStatus → Bool
is_trusted trusted = true
is_trusted _ = false

-- The `match` on the pinned fingerprint.
abbrev pub status_of : Option String → String → PinStatus
status_of none fingerprint = unknown
status_of (some expected) fingerprint =
    if str_eq expected fingerprint then trusted else changed expected

abbrev pub peer_fingerprint : Option PinnedPeer → Option String
peer_fingerprint none = none
peer_fingerprint (some p) = some p.fingerprint

abbrev pub phone_fingerprint : Option PinnedPhone → Option String
phone_fingerprint none = none
phone_fingerprint (some p) = some p.fingerprint

unfoldable pub status : PinStore → String → String → PinStatus
status s peer fingerprint = status_of (peer_fingerprint (get peer s.peers)) fingerprint

unfoldable pub pin : PinStore → String → String → PinStore
pin s peer fingerprint = record s {
  peers = insert peer (record { fingerprint = fingerprint }) s.peers;
}

unfoldable pub phone_status : PinStore → String → String → PinStatus
phone_status s phone fingerprint = status_of (phone_fingerprint (get phone s.phones)) fingerprint

unfoldable pub phone : PinStore → String → Option PinnedPhone
phone s name = get name s.phones

unfoldable pub pin_phone : PinStore → String → String → PhoneFeatures → PinStore
pin_phone s name fingerprint features = record s {
  phones = insert name (record { fingerprint = fingerprint; allowed_features = features }) s.phones;
}

unfoldable pub remove_phone : PinStore → String → PinStore × Option PinnedPhone
remove_phone s name = (record s { phones = remove name s.phones }, get name s.phones)

unfoldable pub is_pc_key : PinStore → String → Bool
is_pc_key s fingerprint = any_value (λ p. str_eq p.fingerprint fingerprint) s.peers

unfoldable pub is_phone_key : PinStore → String → Bool
is_phone_key s fingerprint = any_value (λ p. str_eq p.fingerprint fingerprint) s.phones
