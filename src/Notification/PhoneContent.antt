-- ===== src/Notification/PhoneContent.antt =====
-- What a phone's notification becomes in the history: `desktop_notification` and its helpers
-- (apps/edge-receiver-linux/src/notifications.rs), and the limits of `PhoneNotificationSource`
-- (apps/edge-receiver-linux/src/notification_hub.rs).
use Prim.Native.Char.{code}
use Prim.Native.String.{String, ◌++◌}
use mouse_without_borders.Base.{
  ℕ, zero, suc, ◌+◌, ◌-◌, ◌≤◌, leb, ◌==◌, Bool, true, ◌||◌, ◌&&◌, ◌≡◌, refl, Option, none, some,
  List, length, if◌then◌else◌, ok, arith, Bool-cases, inl, inr,
}
use mouse_without_borders.Base.Texts.{codes, byte_len, utf8_width, all}
use mouse_without_borders.Protocol.Phone.{PhoneNotification, SharedNotification}
use mouse_without_borders.Notification.Validation.{
  validate_content, max_icon_bytes, icon_fits, is_icon_byte,
}

pub record DesktopNotification : Type 0 where
  pub app_name : String
  pub summary : String
  pub body : String
  pub icon_png : Option (List ℕ)

-- `replace` of one character.
unfoldable pub replace_char : ℕ → String → String → String
replace_char c new String.[] = ""
replace_char c new (String.◌∷◌ x s) =
    let rest = replace_char c new s in if code x == c then new ++ rest else String.◌∷◌ x rest

unfoldable pub escape_markup : String → String
unfolding replace_char
escape_markup text = replace_char 62 "&gt;" (replace_char 60 "&lt;" (replace_char 38 "&amp;" text))

unfoldable pub truncate_chars : String → ℕ → String
truncate_chars String.[] n = ""
truncate_chars (String.◌∷◌ c s) zero = "…"
truncate_chars (String.◌∷◌ c s) (suc n) = String.◌∷◌ c (truncate_chars s n)

-- The text up to the last boundary of a character within `n` bytes, and the ellipsis.
unfoldable pub cut_bytes : String → ℕ → String
cut_bytes String.[] n = "…"
cut_bytes (String.◌∷◌ c s) n =
    let rest = cut_bytes s (n - utf8_width (code c)) in
    if leb (utf8_width (code c)) n then String.◌∷◌ c rest else "…"

-- The ellipsis has three bytes.
unfoldable pub truncate_bytes : String → ℕ → String
unfolding cut_bytes
truncate_bytes text max_bytes =
    if leb (byte_len (codes text)) max_bytes then text else cut_bytes text (max_bytes - 3)

-- `char::is_whitespace`.
abbrev pub is_whitespace : ℕ → Bool
is_whitespace c =
    leb 9 c && leb c 13
    || c == 32
    || c == 133
    || c == 160
    || c == 5760
    || leb 8192 c && leb c 8202
    || c == 8232
    || c == 8233
    || c == 8239
    || c == 8287
    || c == 12288

abbrev pub small_icon : Option (List ℕ) → Option (List ℕ)
small_icon none = none
small_icon (some png) = if leb (length png) max_icon_bytes then some png else none

unfoldable pub desktop_notification : PhoneNotification → String → DesktopNotification
unfolding truncate_chars truncate_bytes escape_markup
desktop_notification phone phone_name =
    let app = truncate_chars phone.app_name 64 in
    let title = truncate_chars phone.title 256 in
    record {
      app_name = app ++ " (" ++ phone_name ++ ")";
      summary = escape_markup (if all is_whitespace (codes title) then app else title);
      body = escape_markup (truncate_bytes phone.body 4096);
      icon_png = small_icon phone.icon_png;
    }

-- `chars().take(n)`.
unfoldable pub take_chars : ℕ → String → String
take_chars n String.[] = ""
take_chars zero (String.◌∷◌ c s) = ""
take_chars (suc n) (String.◌∷◌ c s) = String.◌∷◌ c (take_chars n s)

-- The content that `apply_inner` puts in the operation.
unfoldable pub phone_content : PhoneNotification → String → SharedNotification
unfolding take_chars desktop_notification truncate_bytes
phone_content phone name =
    let shown = desktop_notification phone name in
    record {
      app_name = take_chars 64 shown.app_name;
      title = take_chars 256 shown.summary;
      body = truncate_bytes shown.body 4096;
      icon = "phone";
      icon_png = shown.icon_png;
      posted_ms = phone.posted_ms;
      urgency = 1;
    }

length-take_chars : (n : ℕ) (s : String) → length (codes (take_chars n s)) ≤ n
unfolding take_chars codes
length-take_chars n String.[] = omega arith
length-take_chars zero (String.◌∷◌ c s) = omega arith
length-take_chars (suc n) (String.◌∷◌ c s) = omega (arith, length-take_chars n s)

fits_after : (w n m : ℕ) → w ≤ n → m ≤ (n - w) + 3 → w + m ≤ n + 3
fits_after w n m h k = omega arith

leb_sound : (m n : ℕ) → leb m n ≡ true → m ≤ n
leb_sound m n h = ground arith

byte_len-cut_bytes : (s : String) (n : ℕ) → byte_len (codes (cut_bytes s n)) ≤ n + 3
unfolding cut_bytes codes byte_len
byte_len-cut_bytes String.[] n = omega arith
byte_len-cut_bytes (String.◌∷◌ c s) n = elim (Bool-cases (leb (utf8_width (code c)) n)) [
  | inl e ↦ rw e (
      fits_after (utf8_width (code c)) n (byte_len (codes (cut_bytes s (n - utf8_width (code c)))))
        (leb_sound (utf8_width (code c)) n e) (byte_len-cut_bytes s (n - utf8_width (code c))))
  | inr e ↦ rw e (omega arith)
]

byte_len-truncate_bytes : (s : String) (n : ℕ) → 3 ≤ n → byte_len (codes (truncate_bytes s n)) ≤ n
unfolding truncate_bytes
byte_len-truncate_bytes s n h = ground (arith, byte_len-cut_bytes s (n - 3))

small_icon-fits : (icon : Option (List ℕ)) → icon_fits (small_icon icon) ≡ true
small_icon-fits none = refl
small_icon-fits (some png) = ground arith

valid_content :
    (c : SharedNotification)
    → length (codes c.app_name) ≤ 64
    → length (codes c.title) ≤ 256
    → byte_len (codes c.body) ≤ 4096
    → byte_len (codes c.icon) ≤ 128
    → all is_icon_byte (codes c.icon) ≡ true
    → c.urgency ≤ 2
    → icon_fits c.icon_png ≡ true
    → validate_content c ≡ ok tt
unfolding validate_content
valid_content c a t b i n u f = ground arith

desktop_notification-icon :
    (phone : PhoneNotification) (name : String)
    → icon_fits (desktop_notification phone name).icon_png ≡ true
unfolding desktop_notification
desktop_notification-icon phone name = small_icon-fits phone.icon_png

-- What the history is given for a phone's notification, however long its texts and its icon are,
-- passes the checks of contents.
pub validate_content-phone_content :
    (phone : PhoneNotification) (name : String)
    → validate_content (phone_content phone name) ≡ ok tt
unfolding phone_content codes all byte_len
validate_content-phone_content phone name =
    let shown = desktop_notification phone name in
    valid_content (phone_content phone name) (length-take_chars 64 shown.app_name)
      (length-take_chars 256 shown.summary) (byte_len-truncate_bytes shown.body 4096 (omega arith))
      (omega arith) refl (omega arith) (desktop_notification-icon phone name)
