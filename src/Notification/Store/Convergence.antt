-- ===== src/Notification/Store/Convergence.antt =====
-- Operations arrive in any order, and more than once.
use mouse_without_borders.Base.{
  ℕ, ◌≡◌, refl, sym, subst, ap, ◌∙◌, Bool, Option, List, [], ◌∷◌, if◌then◌else◌, arith, Bool-cases,
  inl, inr, Result, ok, err, ◌>>=◌, String,
}
use mathlib.Core.List.{Memᴰ}
use mathlib.Core.List.Permᴰ
use mathlib.Core.List.{Permᴰ}
use mouse_without_borders.Protocol.Phone.{
  NotificationKey, SharedNotification, NotificationOperation,
}
use mouse_without_borders.Notification.Equality.{key_eq, key_eq_iff}
use mouse_without_borders.Notification.Validation.{HubError}
use mouse_without_borders.Notification.Store.{Store, apply}
use mouse_without_borders.Notification.Store.Register.{
  Slot, slot, slot_at, operation_slot, join, apply_joins,
}

-- An operation with the peer that it comes from.
abbrev pub Delivery : Type 0
Delivery = String × NotificationOperation

unfoldable pub deliver : Store → List Delivery → Result HubError Store
deliver s [] = ok s
deliver s (d ∷ ds) = do applied ← apply s d.0 d.1; deliver applied.0 ds

-- The effect of the deliveries on one key.
abbrev pub folded : NotificationKey → Slot → List Delivery → Slot
folded key a [] = a
folded key a (d ∷ ds) =
    folded key (if key_eq d.1.key key then join a (operation_slot d.1) else a) ds

deliver_step :
    (s : Store) (d : Delivery) (ds : List Delivery) (b : Store)
    → deliver s (d ∷ ds) ≡ ok b
    → (s' : Store) × (changed : Bool) × (apply s d.0 d.1 ≡ ok (s', changed))
      × (deliver s' ds ≡ ok b)
unfolding deliver
deliver_step s d ds b h = at (apply s d.0 d.1) refl
  where
    at :
        (r : Result HubError (Store × Bool))
        → apply s d.0 d.1 ≡ r
        → (s' : Store) × (changed : Bool) × (apply s d.0 d.1 ≡ ok (s', changed))
          × (deliver s' ds ≡ ok b)
    at (ok (s', changed)) e = (s', changed, e, ground arith)
    at (err x) e = absurd (ground arith)

pub deliver-folded :
    (ds : List Delivery) (s b : Store) (key : NotificationKey)
    → deliver s ds ≡ ok b
    → slot_at key b ≡ folded key (slot_at key s) ds
unfolding deliver
deliver-folded [] s b key h = ground arith
deliver-folded (d ∷ ds) s b key h =
    let (s', changed, e, later) = deliver_step s d ds b h in
    deliver-folded ds s' b key later
    ∙ ap (λ a. folded key a ds) (apply_joins s s' d.0 d.1 changed key e)

-- A source gives each of its operations on a key its own number.
abbrev pub AgreeOn : List Delivery → Type 0
AgreeOn ds =
    (x y : Delivery)
    → Memᴰ x ds
    → Memᴰ y ds
    → x.1.key ≡ y.1.key
    → x.1.sequence ≡ y.1.sequence
    → x.1.content ≡ y.1.content

join_swap :
    (a : Slot) (m n : ℕ) (c d : Option SharedNotification)
    → (m ≡ n → c ≡ d)
    → join (join a (slot m c)) (slot n d) ≡ join (join a (slot n d)) (slot m c)
join_swap a m n c d same = ground (arith, same)

-- Two deliveries in either order.
join_swap_at :
    (key : NotificationKey) (a : Slot) (x y : Delivery)
    → (x.1.key ≡ y.1.key → x.1.sequence ≡ y.1.sequence → x.1.content ≡ y.1.content)
    → (let b = if key_eq x.1.key key then join a (operation_slot x.1) else a in
        if key_eq y.1.key key then join b (operation_slot y.1) else b)
      ≡ (let b = if key_eq y.1.key key then join a (operation_slot y.1) else a in
          if key_eq x.1.key key then join b (operation_slot x.1) else b)
join_swap_at key a x y g = elim (Bool-cases (key_eq x.1.key key)) [
  | inl e ↦ elim (Bool-cases (key_eq y.1.key key)) [
    | inl f ↦
        let same : x.1.key ≡ y.1.key =
          (key_eq_iff x.1.key key).0 e ∙ sym ((key_eq_iff y.1.key key).0 f) in
        rw (e, f) (join_swap a x.1.sequence y.1.sequence x.1.content y.1.content (g same))
    | inr f ↦ rw (e, f) refl
  ]
  | inr e ↦ rw e refl
]

still_there : {ds es : List Delivery} {x : Delivery} → Permᴰ ds es → Memᴰ x ds → Memᴰ x es
still_there Permᴰ.nil h = h
still_there (Permᴰ.cons e p) (Memᴰ.head h) = Memᴰ.head (h ∙ e)
still_there (Permᴰ.cons e p) (Memᴰ.tail h) = Memᴰ.tail (still_there p h)
still_there (Permᴰ.swap e f) (Memᴰ.head h) = Memᴰ.tail (Memᴰ.head (h ∙ e))
still_there (Permᴰ.swap e f) (Memᴰ.tail (Memᴰ.head h)) = Memᴰ.head (h ∙ f)
still_there (Permᴰ.swap e f) (Memᴰ.tail (Memᴰ.tail h)) = Memᴰ.tail (Memᴰ.tail h)
still_there (Permᴰ.trans p q) h = still_there q (still_there p h)

folded-perm :
    {ds es : List Delivery} (key : NotificationKey)
    → Permᴰ ds es
    → AgreeOn ds
    → (a : Slot) → folded key a ds ≡ folded key a es
folded-perm key Permᴰ.nil g a = refl
folded-perm key (Permᴰ.cons {a = x} {b = y} {l₁ = l} {l₂ = m} e p) g a =
    subst (λ z. folded key a (x ∷ l) ≡ folded key a (z ∷ m)) e
      (folded-perm key p (λ u v i j. g u v (Memᴰ.tail i) (Memᴰ.tail j))
        (if key_eq x.1.key key then join a (operation_slot x.1) else a))
folded-perm key (Permᴰ.swap {a = x} {b = y} {a' = x'} {b' = y'} {l = l} e f) g a =
    subst (λ z. folded key a (x ∷ (y ∷ l)) ≡ folded key a (x' ∷ (z ∷ l))) e
      (subst (λ z. folded key a (x ∷ (y ∷ l)) ≡ folded key a (z ∷ (x ∷ l))) f
        (ap (λ b. folded key b l)
          (join_swap_at key a x y (g x y (Memᴰ.head refl) (Memᴰ.tail (Memᴰ.head refl))))))
folded-perm key (Permᴰ.trans p q) g a =
    folded-perm key p g a
    ∙ folded-perm key q
        (λ x y i j. g x y (still_there (Permᴰ.symm p) i) (still_there (Permᴰ.symm p) j)) a

-- The order in which accepted operations arrive does not matter: if both orders are accepted, the
-- two histories hold the same under every key. Operations of one key and number must agree.
pub deliver-perm :
    (ds es : List Delivery) (s a b : Store) (key : NotificationKey)
    → Permᴰ ds es
    → AgreeOn ds
    → deliver s ds ≡ ok a
    → deliver s es ≡ ok b
    → slot_at key a ≡ slot_at key b
deliver-perm ds es s a b key p g h k =
    deliver-folded ds s a key h
    ∙ folded-perm key p g (slot_at key s)
    ∙ sym (deliver-folded es s b key k)
