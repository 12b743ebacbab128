-- ===== src/Examples/Phones.antt =====
-- A phone pairs, and its notifications are shown.
use mouse_without_borders.Base.{
  ℕ, ◌+◌, ◌≤◌, ◌<◌, ◌≡◌, ◌↔◌, refl, true, false, String, none, some, List, [], ◌∷◌, ok, arith,
}
use mouse_without_borders.Protocol.Phone.{NotificationKey, SharedNotification, PhoneNotification}
use mouse_without_borders.Notification.Validation.{validate_content}
use mouse_without_borders.Notification.PhoneContent.{phone_content, validate_content-phone_content}
use mouse_without_borders.Phone.Pairing.{IpAddr, v4, hex, open_window, check_token, pairing_window}
use mouse_without_borders.Phone.Pairing.Guessing.{
  Attempt, attempts, wrong_answers, wrong_answers_bounded,
}
use mouse_without_borders.Phone.Pairing.Honest.{attempts-check_token}
use mouse_without_borders.Phone.Projection.{
  PhoneProjections, Desktop, show, closed, insert, get, load, load_for, same_owner, adopted_file,
  show_loaded, display, saved, closed_entry, place, update,
}
use mouse_without_borders.Phone.Projection.Silence.{show-show, closed-show}

abbrev phone : IpAddr
phone = v4 7

abbrev stranger : IpAddr
stranger = v4 9

abbrev guesses : List Attempt
guesses =
    record { token = 1 ∷ []; ip = stranger; at = 5 }
    ∷ (record { token = 2 ∷ []; ip = stranger; at = 6 } ∷ [])

wrong_answers_bounded_example : wrong_answers stranger (open_window (171 ∷ []) 5) guesses ≤ 302
wrong_answers_bounded_example =
    wrong_answers_bounded guesses (171 ∷ []) 5 stranger (omega arith, (omega arith, tt))

attempts-check_token_example :
    ((check_token (attempts (open_window (171 ∷ []) 5) guesses) (97 ∷ (98 ∷ [])) phone 9).1 ≡ ok tt)
    ↔ ((97 ∷ (98 ∷ []) ≡ hex (171 ∷ [])) × (9 < 5 + pairing_window))
attempts-check_token_example =
    attempts-check_token guesses (171 ∷ []) (97 ∷ (98 ∷ [])) 5 9 phone (omega arith, tt)
      (omega arith, (omega arith, tt)) (refl, (refl, tt))

-- A daemon that counts its calls.
abbrev daemon : Desktop String ℕ
daemon = record {
  generation = λ calls. ok "d";
  close = λ id owner calls. (calls + 1, ok tt);
  show_shared = λ key content replaces silent calls. (calls + 1, ok 4);
  read = λ calls. ok none;
  save = λ p calls. (calls + 1, ok tt);
  content_digest = λ content. content.title;
  cache_full = "full";
}

abbrev nothing_shown : PhoneProjections
nothing_shown = record { owner = ""; entries = []; loaded = false }

abbrev call_key : NotificationKey
call_key = record { origin = "pc"; instance_id = "phone/1" }

abbrev call : SharedNotification
call = record {
  app_name = "Phone";
  title = "Call";
  body = "";
  icon = "phone";
  icon_png = none;
  posted_ms = 1;
  urgency = 1;
}

abbrev call_shown : PhoneProjections
call_shown = record {
  owner = "d";
  entries = ("phone/1", record { id = 4; digest = "Call"; dismissed = false }) ∷ [];
  loaded = true;
}

abbrev call_dismissed : PhoneProjections
call_dismissed = record {
  owner = "d";
  entries = ("phone/1", record { id = 4; digest = "Call"; dismissed = true }) ∷ [];
  loaded = true;
}

show-show_example : show daemon call_shown 2 call_key (some call) true ≡ (call_shown, 2, ok tt)
unfolding show load load_for same_owner adopted_file show_loaded display saved insert get place
show-show_example = show-show daemon nothing_shown call_shown 0 2 call_key call false true refl refl

closed-show_example :
    show daemon call_dismissed 3 call_key (some call) true ≡ (call_dismissed, 3, ok tt)
unfolding closed closed_entry saved insert get update
closed-show_example =
    closed-show daemon call_shown call_dismissed 2 3 call_key 4 (some call) true refl refl refl

abbrev missed_call : PhoneNotification
missed_call = record {
  id = 7;
  app_name = "Phone";
  title = "";
  body = "Ada & Co <mobile>";
  icon_png = none;
  posted_ms = 1;
}

validate_content-phone_content_example :
    validate_content (phone_content missed_call "Pixel") ≡ ok tt
validate_content-phone_content_example = validate_content-phone_content missed_call "Pixel"
