-- ===== src/Clipboard/Image/Canonical.antt =====
-- Canonical images and the codec that they are stored with.
use mouse_without_borders.Base.{ℕ, ◌*◌, ◌≤◌, ◌<◌, ◌≡◌, some, List, length, ok, arith}
use mouse_without_borders.Clipboard.Image.{
  Libraries, CanonicalImage, png, validate_dimensions, from_rgba, from_encoded, hash_image,
  limits_for, max_image_pixels,
}

-- The documented behaviour of the crate `image`: a buffer of the exact size is taken as it is, and
-- PNG keeps the size and, within the limits, every pixel.
pub record PngLaws (lib : Libraries) : Type 0 where
  pub from_raw_exact :
      (width height : ℕ) (rgba : List ℕ)
      → length rgba ≡ width * height * 4
      → lib.from_raw width height rgba ≡ some rgba
  pub png_dimensions :
      (width height : ℕ) (raw bytes : List ℕ)
      → lib.write_png width height raw ≡ ok bytes
      → lib.into_dimensions bytes png ≡ ok (width, height)
  pub png_lossless :
      (width height : ℕ) (raw bytes : List ℕ)
      → lib.write_png width height raw ≡ ok bytes
      → width * height ≤ max_image_pixels
      → lib.decode bytes png (limits_for width height) ≡ ok raw

-- What `validate_dimensions` accepts.
pub record IsRgbaSize (width height size : ℕ) : Type 0 where
  pub wide : 0 < width
  pub high : 0 < height
  pub pixels : width * height ≤ max_image_pixels
  pub exact : size ≡ width * height * 4

pub validate_dimensions-IsRgbaSize :
    {E : Type 0} (width height size : ℕ)
    → validate_dimensions {E = E} width height size ≡ ok tt
    → IsRgbaSize width height size
unfolding validate_dimensions
validate_dimensions-IsRgbaSize width height size h = ground arith

pub validate_dimensions_accepts :
    {E : Type 0} (width height size : ℕ)
    → IsRgbaSize width height size
    → validate_dimensions {E = E} width height size ≡ ok tt
unfolding validate_dimensions
validate_dimensions_accepts width height size v = ground arith

-- What a canonical image is: its buffer fits its size, its PNG encodes it, its hash is of it.
pub record IsCanonical (lib : Libraries) (max_bytes : ℕ) (i : CanonicalImage) : Type 0 where
  pub size : IsRgbaSize i.width i.height (length i.rgba)
  pub encoded : lib.write_png i.width i.height i.rgba ≡ ok i.png_bytes
  pub bounded : length i.png_bytes ≤ max_bytes
  pub hashed : i.content_sha256 ≡ hash_image lib i.width i.height i.rgba

module _ (lib : Libraries) (laws : PngLaws lib) where
  from_raw_rgba :
      (width height : ℕ) (rgba : List ℕ)
      → IsRgbaSize width height (length rgba)
      → lib.from_raw width height rgba ≡ some rgba
  from_raw_rgba width height rgba v = laws.from_raw_exact width height rgba v.exact

  -- A buffer that `from_rgba` accepts becomes a canonical image of that buffer and size: the size is
  -- within bounds and fits the buffer, the PNG encodes it within the limit, and the hash is of it.
  pub from_rgba-IsCanonical :
      (width height : ℕ) (rgba : List ℕ) (max_bytes : ℕ) (i : CanonicalImage)
      → from_rgba lib width height rgba max_bytes ≡ ok i
      → IsCanonical lib max_bytes i × (i.width ≡ width) × (i.height ≡ height) × (i.rgba ≡ rgba)
  unfolding from_rgba
  from_rgba-IsCanonical width height rgba max_bytes i h =
      let valid : validate_dimensions {E = lib.ImageError} width height (length rgba) ≡ ok tt =
        ground arith in
      let size = validate_dimensions-IsRgbaSize width height (length rgba) valid in
      let raw = from_raw_rgba width height rgba size in
      let w : i.width ≡ width = ground arith in
      let hh : i.height ≡ height = ground arith in
      let same : i.rgba ≡ rgba = ground arith in
      (
        record {
          size = rw (w, hh, same) size;
          encoded = rw (w, hh, same) (ground arith);
          bounded = ground arith;
          hashed = rw (w, hh, same) (ground arith);
        },
        w,
        hh,
        same,
      )

  -- `from_rgba` gives back the canonical image of its buffer.
  pub from_rgba_canonical :
      (max_bytes : ℕ) (i : CanonicalImage)
      → IsCanonical lib max_bytes i
      → from_rgba lib i.width i.height i.rgba max_bytes ≡ ok i
  unfolding from_rgba
  from_rgba_canonical max_bytes i c = ground (
    arith,
    validate_dimensions_accepts {E = lib.ImageError} i.width i.height (length i.rgba) c.size,
    from_raw_rgba i.width i.height i.rgba c.size,
  )

  -- Decoding the PNG of a canonical image gives the image back.
  pub from_encoded-png :
      (max_bytes : ℕ) (i : CanonicalImage)
      → IsCanonical lib max_bytes i
      → from_encoded lib i.png_bytes "image/png" max_bytes ≡ ok i
  unfolding from_encoded
  from_encoded-png max_bytes i c = ground (
    arith,
    from_rgba_canonical max_bytes i c,
    laws.png_dimensions i.width i.height i.rgba i.png_bytes,
    laws.png_lossless i.width i.height i.rgba i.png_bytes,
  )
