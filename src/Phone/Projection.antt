-- ===== src/Phone/Projection.antt =====
-- The notifications of phones that this PC's desktop shows
-- (apps/edge-receiver-linux/src/phone_projection.rs).
pub mod Silence
use Prim.Native.String.{compare}
use text.Mathlib.Text.{is_lt, starts_with}
use Prim.Native.String.{◌++◌}
use mouse_without_borders.Base.{
  ℕ, ◌+◌, ltb, ◌==◌, String, str_eq, Bool, true, false, ◌&&◌, ◌||◌, not, Option, none, some,
  is_some, List, [], ◌∷◌, length, if◌then◌else◌, Result, ok, err,
}
use mouse_without_borders.Base.Texts.{codes}
use mouse_without_borders.Protocol.Phone.{NotificationKey, SharedNotification}

pub record Entry : Type 0 where
  pub id : ℕ
  pub digest : String
  pub dismissed : Bool

pub record PhoneProjections : Type 0 where
  pub owner : String
  pub entries : List (String × Entry)  -- a `BTreeMap`, in order of its keys
  pub loaded : Bool

abbrev pub max_entries : ℕ
max_entries = 4096

unfoldable pub get : String → List (String × Entry) → Option Entry
get k [] = none
get k (e ∷ es) = if str_eq e.0 k then some e.1 else get k es

unfoldable pub update : String → Entry → List (String × Entry) → List (String × Entry)
update k v [] = []
update k v (e ∷ es) = let rest = update k v es in if str_eq e.0 k then (k, v) ∷ es else e ∷ rest

unfoldable pub place : String → Entry → List (String × Entry) → List (String × Entry)
place k v [] = (k, v) ∷ []
place k v (e ∷ es) =
    let rest = place k v es in if is_lt (compare k e.0) then (k, v) ∷ (e ∷ es) else e ∷ rest

unfoldable pub insert : String → Entry → List (String × Entry) → List (String × Entry)
unfolding get update place
insert k v es = if is_some (get k es) then update k v es else place k v es

unfoldable pub remove : String → List (String × Entry) → List (String × Entry)
remove k [] = []
remove k (e ∷ es) = let rest = remove k es in if str_eq e.0 k then es else e ∷ rest

-- `instance`: the first key with a prefix.
unfoldable pub find_instance : String → List (String × Entry) → Option String
find_instance prefix [] = none
find_instance prefix (e ∷ es) = if starts_with e.0 prefix then some e.0 else find_instance prefix es

-- `dismissed`.
unfoldable pub is_dismissed : String → List (String × Entry) → Bool
unfolding get
is_dismissed k es = elim (get k es) [ none ↦ false | some e ↦ e.dismissed ]

unfoldable pub any_lifetime : String → List String → Bool
any_lifetime key [] = false
any_lifetime key (id ∷ ids) = starts_with key (id ++ "/") || any_lifetime key ids

-- `missing`.
unfoldable pub missing : String → List String → List (String × Entry) → List String
unfolding any_lifetime
missing prefix present [] = []
missing prefix present (e ∷ es) =
    let rest = missing prefix present es in
    if starts_with e.0 prefix && not (any_lifetime e.0 present) then e.0 ∷ rest else rest

-- What the code relies on outside: the desktop's daemon, the cache file, `hex` of `Sha256` of the
-- serialized content, and the message of the capacity. `W` is the state of daemon and file.
pub record Desktop (E W : Type 0) : Type 0 where
  pub generation : W → Result E String
  pub close : ℕ → String → W → W × Result E (Unit {0})
  pub show_shared : NotificationKey → SharedNotification → ℕ → Bool → W → W × Result E ℕ
  pub read : W → Result E (Option PhoneProjections)  -- none where there is no file
  pub save : PhoneProjections → W → W × Result E (Unit {0})
  pub content_digest : SharedNotification → String
  pub cache_full : E

abbrev pub Called : Type 0 → Type 0 → Type 0
Called E W = PhoneProjections × W × Result E (Unit {0})

unfoldable pub same_owner : PhoneProjections → String → PhoneProjections
same_owner p owner = if str_eq p.owner owner then p else record p { owner = owner; entries = [] }

-- What of the file counts.
unfoldable pub adopted_file : PhoneProjections → String → Option PhoneProjections → PhoneProjections
adopted_file p owner none = record p { loaded = true }
adopted_file p owner (some saved) =
    if str_eq saved.owner owner then record saved { loaded = true } else record p { loaded = true }

module _ {E W : Type 0} (d : Desktop E W) where
  unfoldable pub load_for : PhoneProjections → W → String → PhoneProjections × Result E (Unit {0})
  unfolding same_owner adopted_file
  load_for p w owner = if p.loaded then (same_owner p owner, ok tt) else elim (d.read w) [
    | err e ↦ (p, err e)
    | ok file ↦ (same_owner (adopted_file p owner file) owner, ok tt)
  ]

  unfoldable pub load : PhoneProjections → W → PhoneProjections × Result E (Unit {0})
  unfolding load_for
  load p w = elim (d.generation w) [ err e ↦ (p, err e) | ok owner ↦ load_for p w owner ]

  unfoldable pub saved : PhoneProjections → W → Called E W
  saved p w = (p, (d.save p w).0, (d.save p w).1)

  -- `if let Some(entry) .. && !entry.dismissed` with no content.
  unfoldable pub dismiss : PhoneProjections → W → String → Option Entry → Called E W
  unfolding saved insert
  dismiss p w instance_id none = (p, w, ok tt)
  dismiss p w instance_id (some e) =
      if e.dismissed then (p, w, ok tt) else elim (d.close e.id p.owner w).1 [
        | err x ↦ (p, (d.close e.id p.owner w).0, err x)
        | ok _ ↦
            saved
              (record p { entries = insert instance_id (record e { dismissed = true }) p.entries })
              (d.close e.id p.owner w).0
      ]

  abbrev pub is_quiet : String → Option Entry → Bool
  is_quiet digest none = false
  is_quiet digest (some e) = e.dismissed || str_eq e.digest digest

  abbrev pub replaced_id : Option Entry → ℕ
  replaced_id none = 0
  replaced_id (some e) = e.id

  unfoldable pub display :
      PhoneProjections → W → NotificationKey → SharedNotification → Bool → Option Entry → Called E W
  unfolding saved insert
  display p w key content fresh found =
      if is_quiet (d.content_digest content) found
      then (p, w, ok tt)
      else if not (is_some found || ltb (length p.entries) max_entries)
      then (p, w, err d.cache_full)
      else let shown = d.show_shared key content (replaced_id found) (not fresh) w in
        elim shown.1 [
          | err x ↦ (p, shown.0, err x)
          | ok id ↦
              saved
                (record p {
                  entries =
                      insert key.instance_id
                        (record { id = id; digest = d.content_digest content; dismissed = false })
                        p.entries;
                })
                shown.0
        ]

  unfoldable pub show_loaded :
      PhoneProjections → W → NotificationKey → Option SharedNotification → Bool → Called E W
  unfolding dismiss display
  show_loaded p w key none fresh = dismiss p w key.instance_id (get key.instance_id p.entries)
  show_loaded p w key (some content) fresh =
      display p w key content fresh (get key.instance_id p.entries)

  unfoldable pub show :
      PhoneProjections → W → NotificationKey → Option SharedNotification → Bool → Called E W
  unfolding load show_loaded
  show p w key content fresh = elim (load p w).1 [
    | err x ↦ ((load p w).0, w, err x)
    | ok _ ↦ show_loaded (load p w).0 w key content fresh
  ]

  unfoldable pub adopt_entry :
      PhoneProjections → W → NotificationKey → ℕ → SharedNotification → Called E W
  unfolding saved insert
  adopt_entry p w key id content =
      if not (is_some (get key.instance_id p.entries) || ltb (length p.entries) max_entries)
      then (p, w, err d.cache_full)
      else saved
          (record p {
            entries =
                insert key.instance_id
                  (record { id = id; digest = d.content_digest content; dismissed = false })
                  p.entries;
          })
          w

  unfoldable pub adopt_loaded :
      PhoneProjections → W → NotificationKey → ℕ → SharedNotification → Option Entry → Called E W
  unfolding adopt_entry
  adopt_loaded p w key id content none = adopt_entry p w key id content
  adopt_loaded p w key id content (some e) =
      if e.id == id then (p, w, ok tt) else elim (d.close e.id p.owner w).1 [
        | err x ↦ (p, (d.close e.id p.owner w).0, err x)
        | ok _ ↦ adopt_entry p (d.close e.id p.owner w).0 key id content
      ]

  unfoldable pub adopt :
      PhoneProjections → W → NotificationKey → ℕ → SharedNotification → Called E W
  unfolding load adopt_loaded
  adopt p w key id content = elim (load p w).1 [
    | err x ↦ ((load p w).0, w, err x)
    | ok _ ↦ adopt_loaded (load p w).0 w key id content (get key.instance_id (load p w).0.entries)
  ]

  -- `closed`: whether the entry was there comes with it. Reason 2 is the user's dismissal.
  unfoldable pub closed_entry :
      PhoneProjections → W → String → ℕ → ℕ → Option Entry → Called E W × Bool
  unfolding saved insert remove
  closed_entry p w instance_id id reason none = ((p, w, ok tt), false)
  closed_entry p w instance_id id reason (some e) =
      if not (e.id == id)
      then ((p, w, ok tt), false)
      else if reason == 2
      then (
        saved (record p { entries = insert instance_id (record e { dismissed = true }) p.entries })
            w,
        true,
      )
      else (saved (record p { entries = remove instance_id p.entries }) w, true)

  unfoldable pub closed : PhoneProjections → W → String → ℕ → ℕ → Called E W × Bool
  unfolding closed_entry
  closed p w instance_id id reason =
      closed_entry p w instance_id id reason (get instance_id p.entries)

  unfoldable pub withdraw_loaded : PhoneProjections → W → String → Option Entry → Called E W
  unfolding saved remove
  withdraw_loaded p w instance_id none = (p, w, ok tt)
  withdraw_loaded p w instance_id (some e) =
      let p' = record p { entries = remove instance_id p.entries } in
      if e.dismissed then saved p' w else elim (d.close e.id p.owner w).1 [
        | err x ↦ (p', (d.close e.id p.owner w).0, err x)
        | ok _ ↦ saved p' (d.close e.id p.owner w).0
      ]

  unfoldable pub withdraw : PhoneProjections → W → String → Called E W
  unfolding load withdraw_loaded
  withdraw p w instance_id = elim (load p w).1 [
    | err x ↦ ((load p w).0, w, err x)
    | ok _ ↦ withdraw_loaded (load p w).0 w instance_id (get instance_id (load p w).0.entries)
  ]
