-- ===== src/Phone/Projection/Silence.antt =====
-- When a call leaves the desktop and the file alone.
use mouse_without_borders.Base.{
  ℕ, ltb, String, eq_refl, Bool, true, false, ◌≡◌, refl, sym, ap, ◌∙◌, ◌||◌, not, Option, none,
  some, is_some, List, [], ◌∷◌, length, Result, ok, err, arith, Option-cases, inl, inr,
}
use mouse_without_borders.Protocol.Phone.{NotificationKey, SharedNotification}
use mouse_without_borders.Phone.Projection.{
  Entry, PhoneProjections, Desktop, get, update, place, insert, same_owner, adopted_file, load,
  load_for, saved, dismiss, is_quiet, replaced_id, display, show_loaded, show, closed, closed_entry,
  max_entries,
}

get-update :
    (k : String) (v : Entry) (es : List (String × Entry))
    → is_some (get k es) ≡ true
    → get k (update k v es) ≡ some v
unfolding get update
get-update k v [] h = cc
get-update k v (e ∷ es) h = ground (arith, get-update k v es, eq_refl k)

get-place :
    (k : String) (v : Entry) (es : List (String × Entry))
    → get k es ≡ none
    → get k (place k v es) ≡ some v
unfolding get place
get-place k v [] h = ground (arith, eq_refl k)
get-place k v (e ∷ es) h = ground (arith, get-place k v es, eq_refl k)

pub get-insert :
    (k : String) (v : Entry) (es : List (String × Entry)) → get k (insert k v es) ≡ some v
unfolding insert
get-insert k v es = elim (Option-cases (get k es)) [
  | inl e ↦ rw e (get-place k v es e)
  | inr (x, e) ↦ rw (e, insert) (get-update k v es (rw e refl))
]

module _ {E W : Type 0} (d : Desktop E W) where
  same_owner-loaded :
      (p : PhoneProjections) (owner : String) → (same_owner p owner).loaded ≡ p.loaded
  unfolding same_owner
  same_owner-loaded p owner = ground arith

  adopted_file-loaded :
      (p : PhoneProjections) (owner : String) (file : Option PhoneProjections)
      → (adopted_file p owner file).loaded ≡ true
  unfolding adopted_file
  adopted_file-loaded p owner none = refl
  adopted_file-loaded p owner (some f) = ground arith

  load_for-loaded :
      (p : PhoneProjections) (w : W) (owner : String)
      → (load_for d p w owner).1 ≡ ok tt
      → (load_for d p w owner).0.loaded ≡ true
  unfolding load_for
  load_for-loaded p w owner h = at (d.read w) refl p.loaded refl
    where
      at :
          (r : Result E (Option PhoneProjections))
          → d.read w ≡ r
          → (l : Bool) → p.loaded ≡ l
          → (load_for d p w owner).0.loaded ≡ true
      at r e true l = ground (arith, same_owner-loaded p owner)
      at (err x) e false l = absurd (ground arith)
      at (ok file) e false l = ground (
        arith,
        same_owner-loaded (adopted_file p owner file) owner,
        adopted_file-loaded p owner file,
      )

  load-loaded :
      (p : PhoneProjections) (w : W) → (load d p w).1 ≡ ok tt → (load d p w).0.loaded ≡ true
  unfolding load
  load-loaded p w h = at (d.generation w) refl
    where
      at : (g : Result E String) → d.generation w ≡ g → (load d p w).0.loaded ≡ true
      at (err x) e = absurd (ground arith)
      at (ok owner) e = ground (arith, load_for-loaded p w owner)

  load_again :
      (p : PhoneProjections) (w : W)
      → p.loaded ≡ true
      → d.generation w ≡ ok p.owner
      → load d p w ≡ (p, ok tt)
  unfolding load load_for same_owner
  load_again p w l g = rw (g, load) (rw (l, eq_refl p.owner) refl)

  show_again :
      (p : PhoneProjections) (w : W) (key : NotificationKey) (content : Option SharedNotification)
      (fresh : Bool)
      → p.loaded ≡ true
      → d.generation w ≡ ok p.owner
      → show d p w key content fresh ≡ show_loaded d p w key content fresh
  unfolding show
  show_again p w key content fresh l g =
      let e = load_again p w l g in
      rw (ap (λ x. x.1) e, show) (ap (λ x. show_loaded d x.0 w key content fresh) e)

  show_after :
      (p : PhoneProjections) (w : W) (key : NotificationKey) (content : Option SharedNotification)
      (fresh : Bool)
      → (load d p w).1 ≡ ok tt
      → show d p w key content fresh ≡ show_loaded d (load d p w).0 w key content fresh
  unfolding show
  show_after p w key content fresh e = rw (e, show) refl

  show_failed :
      (p : PhoneProjections) (w : W) (key : NotificationKey) (content : Option SharedNotification)
      (fresh : Bool) (p' : PhoneProjections) (w' : W) (x : E)
      → (load d p w).1 ≡ err x
      → show d p w key content fresh ≡ (p', w', ok tt)
      → ⊥
  unfolding show
  show_failed p w key content fresh p' w' x e h = ground arith

  -- An entry that is dismissed or has the same content keeps the desktop quiet.
  display_quiet :
      (p : PhoneProjections) (w : W) (key : NotificationKey) (content : SharedNotification)
      (fresh : Bool) (found : Option Entry)
      → is_quiet d (d.content_digest content) found ≡ true
      → display d p w key content fresh found ≡ (p, w, ok tt)
  unfolding display
  display_quiet p w key content fresh found q = rw q refl

  display-quiet :
      (p p' : PhoneProjections) (w w' : W) (key : NotificationKey) (content : SharedNotification)
      (fresh : Bool) (found : Option Entry)
      → get key.instance_id p.entries ≡ found
      → display d p w key content fresh found ≡ (p', w', ok tt)
      → (is_quiet d (d.content_digest content) (get key.instance_id p'.entries) ≡ true)
        × (p'.loaded ≡ p.loaded)
  unfolding display saved
  display-quiet p p' w w' key content fresh found f h =
      at (is_quiet d (d.content_digest content) found) refl
        (is_some found || ltb (length p.entries) max_entries) refl
        (d.show_shared key content (replaced_id d found) (not fresh) w).1 refl
    where
      shown : ℕ → PhoneProjections
      shown id = record p {
        entries =
            insert key.instance_id
              (record { id = id; digest = d.content_digest content; dismissed = false }) p.entries;
      }

      now_quiet :
          (id : ℕ)
          → p' ≡ shown id
          → (is_quiet d (d.content_digest content) (get key.instance_id p'.entries) ≡ true)
            × (p'.loaded ≡ p.loaded)
      now_quiet id e =
          let new : Entry = record {
            id = id;
            digest = d.content_digest content;
            dismissed = false;
          } in
          let found_again = get-insert key.instance_id new p.entries in
          (rw e (rw found_again (eq_refl (d.content_digest content))), ap (λ x. x.loaded) e)

      at :
          (q : Bool)
          → is_quiet d (d.content_digest content) found ≡ q
          → (room : Bool) → (is_some found || ltb (length p.entries) max_entries) ≡ room
          → (r : Result E ℕ) → (d.show_shared key content (replaced_id d found) (not fresh) w).1 ≡ r
          → (is_quiet d (d.content_digest content) (get key.instance_id p'.entries) ≡ true)
            × (p'.loaded ≡ p.loaded)
      at true q room s r t = let e : p' ≡ p = ground arith in (rw e (rw f q), ap (λ x. x.loaded) e)
      at false q false s r t = absurd (ground arith)
      at false q true s (err x) t = absurd (ground arith)
      at false q true s (ok id) t = now_quiet id (ground arith)

  -- Right after a call of `show` for a content and a key has succeeded, showing the same content
  -- under the same key again calls neither the desktop nor the file and changes nothing, as long as
  -- the daemon is the same.
  pub show-show :
      (p p' : PhoneProjections) (w w' : W) (key : NotificationKey) (content : SharedNotification)
      (fresh again : Bool)
      → show d p w key (some content) fresh ≡ (p', w', ok tt)
      → d.generation w' ≡ ok p'.owner
      → show d p' w' key (some content) again ≡ (p', w', ok tt)
  unfolding show_loaded
  show-show p p' w w' key content fresh again h g = at (load d p w).1 refl
    where
      at :
          (l : Result E (Unit {0}))
          → (load d p w).1 ≡ l
          → show d p' w' key (some content) again ≡ (p', w', ok tt)
      at (err x) e = absurd (show_failed p w key (some content) fresh p' w' x e h)
      at (ok _) e =
          let q = (load d p w).0 in
          let r =
            display-quiet q p' w w' key content fresh (get key.instance_id q.entries) refl
              (sym (show_after p w key (some content) fresh e) ∙ h) in
          show_again p' w' key (some content) again (r.1 ∙ load-loaded p w e) g
          ∙ display_quiet p' w' key content again (get key.instance_id p'.entries) r.0

  closed-dismissed :
      (p p' : PhoneProjections) (w w' : W) (k : String) (id : ℕ)
      → closed d p w k id 2 ≡ ((p', w', ok tt), true)
      → (e : Entry) × (p'
          ≡ record p { entries = insert k (record e { dismissed = true }) p.entries })
  unfolding closed closed_entry saved
  closed-dismissed p p' w w' k id h = at (get k p.entries) refl
    where
      at :
          (found : Option Entry)
          → get k p.entries ≡ found
          → (e : Entry) × (p'
              ≡ record p { entries = insert k (record e { dismissed = true }) p.entries })
      at none f = absurd (ground arith)
      at (some e) f = (e, ground arith)

  dismissed-show :
      (p : PhoneProjections) (w : W) (key : NotificationKey) (content : Option SharedNotification)
      (fresh : Bool) (e : Entry)
      → get key.instance_id p.entries ≡ some e
      → e.dismissed ≡ true
      → show_loaded d p w key content fresh ≡ (p, w, ok tt)
  unfolding show_loaded dismiss
  dismissed-show p w key none fresh e f gone = rw f (rw gone refl)
  dismissed-show p w key (some c) fresh e f gone =
      display_quiet p w key c fresh (get key.instance_id p.entries) (rw f (rw gone refl))

  -- What the user dismisses stays so: after the desktop reports it, showing any content of the
  -- notification, or its absence, calls neither the desktop nor the file, as long as the daemon is
  -- the same.
  pub closed-show :
      (p p' : PhoneProjections) (w w' : W) (key : NotificationKey) (id : ℕ)
      (content : Option SharedNotification) (again : Bool)
      → p.loaded ≡ true
      → closed d p w key.instance_id id 2 ≡ ((p', w', ok tt), true)
      → d.generation w' ≡ ok p'.owner
      → show d p' w' key content again ≡ (p', w', ok tt)
  closed-show p p' w w' key id content again l h g =
      let (e, same) = closed-dismissed p p' w w' key.instance_id id h in
      show_again p' w' key content again (ap (λ x. x.loaded) same ∙ l) g
      ∙ dismissed-show p' w' key content again (record e { dismissed = true })
          (ap (λ x. get key.instance_id x.entries) same
            ∙ get-insert key.instance_id (record e { dismissed = true }) p.entries)
          refl
