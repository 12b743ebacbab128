-- ===== src/Clipboard/Image.antt =====
-- Canonical clipboard images and items (crates/edge-clipboard/src/lib.rs: `CanonicalImage`,
-- `ClipboardItem`, `validate_dimensions`, the hashes). The crates `image` and `sha2` and the UTF-8
-- conversions of the standard library are the record `Libraries`. The target is a 64-bit one, so
-- `usize::try_from` of a u64 succeeds.
pub mod Canonical
use mouse_without_borders.Base.{
  ℕ, ◌*◌, String, str_eq, ltb, ◌==◌, not, ◌||◌, Option, some, List, ◌++◌, length, if◌then◌else◌,
  Result, ok, err, ◌>>=◌, ◌>>◌, fail_if, ok_or,
}
use mouse_without_borders.Base.Bytes.{be32, checked_u64}

abbrev pub max_image_pixels : ℕ
max_image_pixels = 16777216

abbrev pub transfer_chunk_bytes : ℕ
transfer_chunk_bytes = 16384

-- 10 s in nanoseconds.
abbrev pub image_transfer_timeout : ℕ
image_transfer_timeout = 10000000000

pub data ImageFormat : Type 0 where
  png jpeg bmp : ImageFormat

-- `image::Limits`, as far as the code sets it.
pub record DecodeLimits : Type 0 where
  pub max_image_width : Option ℕ
  pub max_image_height : Option ℕ
  pub max_alloc : Option ℕ

pub record Libraries : Type 1 where
  pub ImageError : Type 0
  -- `Sha256::digest`.
  pub sha256 : List ℕ → List ℕ
  -- `String::into_bytes`, `String::from_utf8`.
  pub into_bytes : String → List ℕ
  pub from_utf8 : List ℕ → Option String
  -- `RgbaImage::from_raw(..)` with `as_raw`.
  pub from_raw : ℕ → ℕ → List ℕ → Option (List ℕ)
  -- `DynamicImage::write_to` as PNG, `ImageReader::into_dimensions`, and `ImageReader::decode` with
  -- `into_rgba8().into_raw()`.
  pub write_png : ℕ → ℕ → List ℕ → Result ImageError (List ℕ)
  pub into_dimensions : List ℕ → ImageFormat → Result ImageError (ℕ × ℕ)
  pub decode : List ℕ → ImageFormat → DecodeLimits → Result ImageError (List ℕ)

pub data ClipboardError (E : Type 0) : Type 0 where
  invalid_dimensions : ClipboardError E
  too_many_pixels : ℕ → ClipboardError E
  invalid_rgba_length : ℕ → ℕ → ClipboardError E
  encoded_too_large : ℕ → ℕ → ClipboardError E
  unsupported_mime : String → ClipboardError E
  image_error : E → ClipboardError E
  invalid_transfer : ClipboardError E
  offset_mismatch : ℕ → ℕ → ClipboardError E
  hash_mismatch : ClipboardError E
  transfer_expired : ClipboardError E
  invalid_text : ClipboardError E

pub record CanonicalImage : Type 0 where
  pub width : ℕ  -- u32
  pub height : ℕ  -- u32
  pub rgba : List ℕ
  pub png_bytes : List ℕ  -- `png`
  pub content_sha256 : List ℕ

pub data ClipboardItem : Type 0 where
  text : String → ClipboardItem
  image : CanonicalImage → ClipboardItem

pub data ClipboardContentId : Type 0 where
  text_id image_id : List ℕ → ClipboardContentId

-- `#[from] image::ImageError`.
abbrev pub lift_image {ℓ} : {E : Type 0} {A : Type ℓ} → Result E A → Result (ClipboardError E) A
lift_image (ok a) = ok a
lift_image (err e) = err (image_error e)

unfoldable pub validate_dimensions : {E : Type 0} → ℕ → ℕ → ℕ → Result (ClipboardError E) (Unit {0})
validate_dimensions width height rgba_len = do
  fail_if (width == 0 || height == 0) invalid_dimensions
  let pixels = width * height
  fail_if (ltb max_image_pixels pixels) (too_many_pixels pixels)
  expected ← ok_or (checked_u64 (pixels * 4)) invalid_dimensions
  fail_if (not (rgba_len == expected)) (invalid_rgba_length width height)

abbrev pub limits_for : ℕ → ℕ → DecodeLimits
limits_for width height = record {
  max_image_width = some width;
  max_image_height = some height;
  max_alloc = some (max_image_pixels * 4);
}

module _ (lib : Libraries) where
  open lib use {ImageError, sha256, into_bytes, from_raw, write_png, into_dimensions, decode}

  abbrev pub hash_bytes : List ℕ → List ℕ
  hash_bytes bytes = sha256 bytes

  -- The updates of a hasher digest as their concatenation.
  abbrev pub hash_image : ℕ → ℕ → List ℕ → List ℕ
  hash_image width height rgba = sha256 (be32 width ++ (be32 height ++ rgba))

  unfoldable pub content_id : ClipboardItem → ClipboardContentId
  content_id (text t) = text_id (hash_bytes (into_bytes t))
  content_id (image i) = image_id i.content_sha256

  unfoldable pub from_rgba : ℕ → ℕ → List ℕ → ℕ → Result (ClipboardError ImageError) CanonicalImage
  from_rgba width height rgba max_bytes = do
    validate_dimensions width height (length rgba)
    raw ← ok_or (from_raw width height rgba) (invalid_rgba_length width height)
    encoded ← lift_image (write_png width height raw)
    fail_if (ltb max_bytes (length encoded)) (encoded_too_large (length encoded) max_bytes)
    ok (record {
      width = width;
      height = height;
      rgba = raw;
      png_bytes = encoded;
      content_sha256 = hash_image width height raw;
    })

  unfoldable pub format_of : String → Result (ClipboardError ImageError) ImageFormat
  format_of mime =
      if str_eq mime "image/png"
      then ok png
      else if str_eq mime "image/jpeg" || str_eq mime "image/jpg"
      then ok jpeg
      else if str_eq mime "image/bmp" || str_eq mime "image/x-bmp"
      then ok bmp
      else err (unsupported_mime mime)

  unfoldable pub from_encoded :
      List ℕ → String → ℕ → Result (ClipboardError ImageError) CanonicalImage
  unfolding format_of
  from_encoded bytes mime max_bytes = do
    fail_if (ltb max_bytes (length bytes)) (encoded_too_large (length bytes) max_bytes)
    format ← format_of mime
    dimensions ← lift_image (into_dimensions bytes format)
    let width = dimensions.0
    let height = dimensions.1
    let pixels = width * height
    fail_if (width == 0 || height == 0) invalid_dimensions
    fail_if (ltb max_image_pixels pixels) (too_many_pixels pixels)
    decoded ← lift_image (decode bytes format (limits_for width height))
    from_rgba width height decoded max_bytes
