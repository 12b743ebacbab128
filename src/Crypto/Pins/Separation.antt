-- ===== src/Crypto/Pins/Separation.antt =====
-- What pinning changes, and what it leaves alone.
use mouse_without_borders.Base.{
  String, str_eq, Bool, true, ◌≡◌, ◌≢◌, ◌↔◌, inl, inr, refl, none, some, List, [], ◌∷◌,
  if◌then◌else◌, arith, eq_iff, eq_refl, Option-cases,
}
use mouse_without_borders.Crypto.Pins.{
  PinStore, PinnedPhone, PhoneFeatures, trusted, unknown, get, insert, remove, any_value, status,
  pin, phone_status, phone, pin_phone, remove_phone, is_pc_key,
}

module _ {V : Type 0} where
  get-insert :
      (k j : String) (v : V) (m : List (String × V))
      → get j (insert k v m) ≡ (if str_eq k j then some v else get j m)
  unfolding get insert
  get-insert k j v [] = refl
  get-insert k j v ((i, w) ∷ m) =
      ground (arith, eq_iff k j, eq_iff i k, eq_iff i j, get-insert k j v m)

  get-remove :
      (k j : String) (m : List (String × V))
      → get j (remove k m) ≡ (if str_eq k j then none else get j m)
  unfolding get remove
  get-remove k j [] = ground arith
  get-remove k j ((i, w) ∷ m) = ground (arith, eq_iff k j, eq_iff i k, eq_iff i j, get-remove k j m)

  -- A value found under some name is found among all values.
  any_value-get :
      (p : V → Bool) (k : String) (m : List (String × V)) (v : V)
      → get k m ≡ some v
      → p v ≡ true
      → any_value p m ≡ true
  unfolding get any_value
  any_value-get p k [] v h t = cc
  any_value-get p k ((j, w) ∷ m) v h t = ground (arith, any_value-get p k m v)

-- After a key is pinned for a peer exactly that key is trusted under its name, the peers of other
-- names keep their status, and no phone's status changes.
pub status-pin :
    (s : PinStore) (peer fingerprint other key : String)
    → ((status (pin s peer fingerprint) peer key ≡ trusted) ↔ (key ≡ fingerprint))
      × (peer ≢ other → status (pin s peer fingerprint) other key ≡ status s other key)
      × (phone_status (pin s peer fingerprint) other key ≡ phone_status s other key)
unfolding status pin phone_status
status-pin s peer fingerprint other key = (
  ground (
    arith,
    get-insert peer peer (record { fingerprint = fingerprint }) s.peers,
    eq_refl peer,
    eq_iff fingerprint key,
  ),
  (λ d. ground (
    arith,
    get-insert peer other (record { fingerprint = fingerprint }) s.peers,
    eq_iff peer other,
  )),
  refl,
)

-- After a phone is pinned exactly its key is trusted under its name, with just the features given,
-- other phones keep their status, and no PC becomes trusted or loses trust.
pub phone_status-pin_phone :
    (s : PinStore) (name fingerprint other key : String) (features : PhoneFeatures)
    → ((phone_status (pin_phone s name fingerprint features) name key ≡ trusted)
        ↔ (key ≡ fingerprint))
      × (phone (pin_phone s name fingerprint features) name
          ≡ some (record { fingerprint = fingerprint; allowed_features = features }))
      × (name ≢ other
          → phone_status (pin_phone s name fingerprint features) other key
            ≡ phone_status s other key)
      × (status (pin_phone s name fingerprint features) other key ≡ status s other key)
unfolding status pin_phone phone_status phone
phone_status-pin_phone s name fingerprint other key features =
    let p : PinnedPhone = record { fingerprint = fingerprint; allowed_features = features } in
    (
      ground (arith, get-insert name name p s.phones, eq_refl name, eq_iff fingerprint key),
      ground (arith, get-insert name name p s.phones, eq_refl name),
      (λ d. ground (arith, get-insert name other p s.phones, eq_iff name other)),
      refl,
    )

-- A removed phone is returned if it was pinned, its key is unknown under its name from then on,
-- other phones keep their status, and so does every PC.
pub phone_status-remove_phone :
    (s : PinStore) (name other key : String)
    → ((remove_phone s name).1 ≡ phone s name)
      × (phone_status (remove_phone s name).0 name key ≡ unknown)
      × (name ≢ other → phone_status (remove_phone s name).0 other key ≡ phone_status s other key)
      × (status (remove_phone s name).0 other key ≡ status s other key)
unfolding remove_phone phone_status phone status
phone_status-remove_phone s name other key = (
  refl,
  ground (arith, get-remove name name s.phones, eq_refl name),
  (λ d. ground (arith, get-remove name other s.phones, eq_iff name other)),
  refl,
)

-- A PC whose key is trusted under some name is a PC key.
pub status-is_pc_key :
    (s : PinStore) (peer key : String) → status s peer key ≡ trusted → is_pc_key s key ≡ true
unfolding status is_pc_key
status-is_pc_key s peer key h = elim (Option-cases (get peer s.peers)) [
  | inl n ↦ ground (arith, n, h)
  | inr (p, e) ↦
      any_value-get (λ q. str_eq q.fingerprint key) peer s.peers p e
        (ground (arith, e, h, eq_iff p.fingerprint key))
]
