-- ===== src/Examples/Clipboard.antt =====
-- Transfers of a short text and of an image of one pixel.
use mouse_without_borders.Base.{
  ℕ, ◌≡◌, ◌⊎◌, refl, str_eq, if◌then◌else◌, none, some, List, [], ◌∷◌, ok, err, take, drop, arith,
}
use mouse_without_borders.Base.Bytes.{bytes_eq}
use mouse_without_borders.Protocol.Clipboard.{text_end, text_chunk}
use mouse_without_borders.Clipboard.Image.{
  Libraries, CanonicalImage, text, image, offset_mismatch, from_rgba, from_encoded,
  validate_dimensions, hash_image,
}
use mouse_without_borders.Clipboard.Image.Canonical.{PngLaws, IsCanonical, from_encoded-png}
use mouse_without_borders.Clipboard.Outgoing.{text_transfer, image_transfer}
use mouse_without_borders.Clipboard.Incoming.{
  IncomingState, TransferLimits, text_kind, handle, finish_kind,
}
use mouse_without_borders.Clipboard.Incoming.Bounds.{IsBounded, handle-IsBounded}
use mouse_without_borders.Clipboard.Incoming.Accepts.{IsEnd, Ends, handle-Certifies}
use mouse_without_borders.Clipboard.Incoming.Refusals.{handle_refused}
use mouse_without_borders.Clipboard.Transfer.RoundTrip.{
  Delivers, text_transfer-Delivers, image_transfer-Delivers,
}

-- Libraries with one text, whose PNG is the size and the pixels, and whose hash is a prefix.
abbrev hi_bytes : List ℕ
hi_bytes = 72 ∷ 105 ∷ []

abbrev head_of : List ℕ → ℕ
head_of [] = 0
head_of (x ∷ xs) = x

abbrev toy : Libraries
toy = record {
  ImageError = Unit {0};
  sha256 = λ bytes. take 32 bytes;
  into_bytes = λ t. if str_eq t "Hi" then hi_bytes else [];
  from_utf8 = λ bytes. if bytes_eq bytes hi_bytes then some "Hi" else none;
  from_raw = λ width height rgba. some rgba;
  write_png = λ width height rgba. ok (width ∷ height ∷ rgba);
  into_dimensions = λ bytes format. ok (head_of bytes, head_of (drop 1 bytes));
  decode = λ bytes format limits. ok (drop 2 bytes);
}

toy-PngLaws : PngLaws toy
toy-PngLaws = record {
  from_raw_exact = λ width height rgba h. refl;
  png_dimensions = λ width height raw bytes h. ground arith;
  png_lossless = λ width height raw bytes h small. ground arith;
}

abbrev limits : TransferLimits
limits = record { max_image_bytes = 100; max_text_bytes = 100 }

abbrev pixel : CanonicalImage
pixel = record {
  width = 1;
  height = 1;
  rgba = 1 ∷ 2 ∷ 3 ∷ 4 ∷ [];
  png_bytes = 1 ∷ 1 ∷ 1 ∷ 2 ∷ 3 ∷ 4 ∷ [];
  content_sha256 = hash_image toy 1 1 (1 ∷ 2 ∷ 3 ∷ 4 ∷ []);
}

pixel-IsCanonical : IsCanonical toy 100 pixel
pixel-IsCanonical = record {
  size = record { wide = omega arith; high = omega arith; pixels = omega arith; exact = refl };
  encoded = refl;
  bounded = omega arith;
  hashed = refl;
}

-- A transfer of the text with all its bytes, and one with its first byte.
abbrev received : List ℕ → IncomingState
received bytes = record {
  transfer_id = 7;
  kind = text_kind;
  total_bytes = 2;
  content_sha256 = hi_bytes;
  bytes = bytes;
  last_progress = 0;
}

text_transfer-Delivers_example :
    Delivers toy limits (λ n. n) 4 (text_transfer toy 7 1 "Hi") (some (received [])) (text "Hi")
text_transfer-Delivers_example =
    text_transfer-Delivers toy limits (λ n. n) 4 7 1 "Hi" (some (received [])) refl (omega arith)
      (omega arith) (omega arith) (omega arith)

image_transfer-Delivers_example :
    Delivers toy limits (λ n. n) 4 (image_transfer 8 2 pixel) none (image pixel)
image_transfer-Delivers_example =
    image_transfer-Delivers toy limits (λ n. n) 4 8 2 pixel none toy-PngLaws pixel-IsCanonical
      (omega arith) (omega arith) (omega arith)

handled :
    handle toy (some (received hi_bytes)) (text_end 7) limits 5 ≡ (none, ok (some (text "Hi")))
unfolding handle finish_kind
handled = refl

handle-Certifies_example :
    (id : ℕ) × IsEnd (text_end 7) id
    × Ends toy limits (some (received hi_bytes)) id none (text "Hi")
handle-Certifies_example =
    handle-Certifies toy limits (some (received hi_bytes)) (text_end 7) 5 none (text "Hi") handled

handle-IsBounded_example :
    IsBounded limits (handle toy (some (received (72 ∷ []))) (text_chunk 7 1 (105 ∷ [])) limits 5).0
handle-IsBounded_example =
    handle-IsBounded toy limits (some (received (72 ∷ []))) (text_chunk 7 1 (105 ∷ [])) 5 tt
      (omega arith, omega arith, omega arith, omega arith)

refused :
    handle toy (some (received (72 ∷ []))) (text_chunk 7 0 (105 ∷ [])) limits 5
    ≡ (some (received (72 ∷ [])), err (offset_mismatch 1 0))
unfolding handle
refused = refl

handle_refused_example :
    (some (received (72 ∷ [])) ≡ some (received (72 ∷ [])))
    ⊎ ((id : ℕ) × IsEnd (text_chunk 7 0 (105 ∷ [])) id × (some (received (72 ∷ [])) ≡ none))
handle_refused_example =
    handle_refused toy limits (some (received (72 ∷ []))) (text_chunk 7 0 (105 ∷ [])) 5 refused

made : from_rgba toy 1 1 pixel.rgba 100 ≡ ok pixel
unfolding from_rgba validate_dimensions
made = refl

from_encoded-png_example : from_encoded toy pixel.png_bytes "image/png" 100 ≡ ok pixel
from_encoded-png_example = from_encoded-png toy toy-PngLaws 100 pixel pixel-IsCanonical
