-- ===== src/Media.antt =====
-- core/media/media.go: `PreviewType`. File names are in ASCII: Go's lower case of a few other letters
-- is an ASCII letter, which the model leaves out.
use kumacore.Prelude.{
  ℕ, ◌+◌, Bool, false, ◌&&◌, ◌||◌, Option, none, some, List, [], ◌∷◌, ◌++◌, map, if◌then◌else◌,
  ◌==◌, leb, nat_eq, ◌≡◌, ◌≢◌, refl, ap, arith, All,
}
use kumacore.Prelude.Text.{Str, Eq-str, str}

pub data Preview : Type 0 where
  image video audio text unknown : Preview

unfoldable pub to_lower : ℕ → ℕ
to_lower c = if leb b'A' c && leb c b'Z' then c + 32 else c

-- strings.LastIndex and the slice from it, for one byte
unfoldable pub from_last : ℕ → Str → Option Str
from_last sep [] = none
from_last sep (c ∷ s) = elim (from_last sep s) [
  | some rest ↦ some rest
  | none ↦ if nat_eq c sep then some (c ∷ s) else none
]

abbrev pub one_of : Str → List Str → Bool
one_of s [] = false
one_of s (t ∷ ts) = s == t || one_of s ts

abbrev pub image_extensions : List Str
image_extensions =
    str ".jpg"
    ∷ str ".jpeg"
    ∷ str ".png"
    ∷ str ".gif"
    ∷ str ".webp"
    ∷ str ".bmp"
    ∷ str ".ico"
    ∷ str ".avif"
    ∷ []

abbrev pub video_extensions : List Str
video_extensions = str ".mp4" ∷ str ".webm" ∷ str ".ogv" ∷ str ".mov" ∷ str ".m4v" ∷ str ".mkv" ∷ []

abbrev pub audio_extensions : List Str
audio_extensions =
    str ".mp3" ∷ str ".wav" ∷ str ".ogg" ∷ str ".flac" ∷ str ".aac" ∷ str ".m4a" ∷ str ".opus" ∷ []

abbrev pub text_extensions : List Str
text_extensions =
    str ".txt"
    ∷ str ".md"
    ∷ str ".markdown"
    ∷ str ".json"
    ∷ str ".yaml"
    ∷ str ".yml"
    ∷ str ".toml"
    ∷ str ".csv"
    ∷ str ".xml"
    ∷ str ".js"
    ∷ str ".ts"
    ∷ str ".css"
    ∷ str ".go"
    ∷ str ".py"
    ∷ str ".sh"
    ∷ str ".bash"
    ∷ str ".rs"
    ∷ str ".c"
    ∷ str ".cpp"
    ∷ str ".h"
    ∷ str ".java"
    ∷ str ".rb"
    ∷ str ".php"
    ∷ str ".sql"
    ∷ str ".ini"
    ∷ str ".conf"
    ∷ str ".log"
    ∷ []

unfoldable pub classify : Str → Preview
classify extension =
    if one_of extension image_extensions
    then image
    else if one_of extension video_extensions
    then video
    else if one_of extension audio_extensions
    then audio
    else if one_of extension text_extensions
    then text
    else unknown

unfoldable pub preview_type : Str → Preview
unfolding to_lower from_last
preview_type filename = elim (from_last b'.' (map to_lower filename)) [
  | none ↦ unknown
  | some extension ↦ classify extension
]

to_lower_idem : (c : ℕ) → to_lower (to_lower c) ≡ to_lower c
unfolding to_lower
to_lower_idem c = ground arith

map-to_lower_idem : (s : Str) → map to_lower (map to_lower s) ≡ map to_lower s
map-to_lower_idem [] = refl
map-to_lower_idem (c ∷ s) = cc (to_lower_idem c, map-to_lower_idem s)

from_last-none : (s : Str) → All (λ c. c ≢ b'.') s → from_last b'.' s ≡ none
unfolding from_last
from_last-none [] h = refl
from_last-none (c ∷ s) (h, hs) = ground (arith, from_last-none s hs)

from_last-append :
    (s ext : Str) → All (λ c. c ≢ b'.') ext → from_last b'.' (s ++ b'.' ∷ ext) ≡ some (b'.' ∷ ext)
unfolding from_last
from_last-append [] ext h = rw (from_last-none ext h) refl
from_last-append (c ∷ s) ext h = rw (from_last-append s ext h) refl

map-lower-append : (s t : Str) → map to_lower (s ++ t) ≡ map to_lower s ++ map to_lower t
map-lower-append [] t = refl
map-lower-append (c ∷ s) t = ap (λ r. to_lower c ∷ r) (map-lower-append s t)

to_lower-dot : (ext : Str) → All (λ c. c ≢ b'.') ext → All (λ c. c ≢ b'.') (map to_lower ext)
unfolding to_lower
to_lower-dot [] h = tt
to_lower-dot (c ∷ ext) (h, hs) = (ground arith, to_lower-dot ext hs)

-- The class of a file depends on its last extension alone, without regard to the case of its
-- letters: whatever stands before the last dot is ignored, dots included.
pub preview_type-extension :
    (name ext : Str)
    → All (λ c. c ≢ b'.') ext
    → preview_type (name ++ b'.' ∷ ext) ≡ classify (b'.' ∷ map to_lower ext)
unfolding preview_type
preview_type-extension name ext h =
    rw
      (
        preview_type,
        map-lower-append name (b'.' ∷ ext),
        from_last-append (map to_lower name) (map to_lower ext) (to_lower-dot ext h),
      )
      refl
