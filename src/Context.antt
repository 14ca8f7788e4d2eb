-- ===== src/Context.antt =====
-- context.go: the context that a code is bound to, and its builder. A *OtpContext is an
-- `Option OtpContext`; a builder is a pointer that each setter returns, so it is passed along.
pub mod Sorted
pub mod Build
use genotp_go.Base.{
  ℕ, ◌+◌, Bool, true, false, ltb, leb, ◌==◌, if◌then◌else◌, List, [], ◌∷◌, ◌++◌, Bytes, length,
  take, drop, Option, none, some, codes,
}
use genotp_go.Base.Keys.{keys, lookup, insert, equal}
use genotp_go.Text.{trim_space, to_lower, index_byte, index_of, trim_suffix_byte}

pub record OtpContext : Type 0 where
  pub bytes : Bytes

unfoldable pub new_otp_context : OtpContext
new_otp_context = record { bytes = [] }

unfoldable pub otp_context_from_bytes : Bytes → OtpContext
otp_context_from_bytes b = record { bytes = b }

unfoldable pub is_empty : OtpContext → Bool
is_empty c = length c.bytes == 0

-- `var ctxBytes []byte; if context != nil { ctxBytes = context.Bytes() }`
abbrev pub context_bytes : Option OtpContext → Bytes
context_bytes none = []
context_bytes (some c) = c.bytes

abbrev pub max_context_field_len : ℕ
max_context_field_len = 256

-- The map of the fields, a Go map.
abbrev pub Fields : Type 0
Fields = List (Bytes × Bytes)

pub record OtpContextBuilder : Type 0 where
  pub fields : Fields

unfoldable pub new_otp_context_builder : OtpContextBuilder
new_otp_context_builder = record { fields = [] }

unfoldable pub set_field : OtpContextBuilder → Bytes → Bytes → OtpContextBuilder
set_field b key value =
    if leb (length value) max_context_field_len
    then record b { fields = insert key value b.fields }
    else b

unfoldable pub ip : OtpContextBuilder → Bytes → OtpContextBuilder
ip b value = set_field b (codes "ip") value

unfoldable pub device : OtpContextBuilder → Bytes → OtpContextBuilder
device b device_id = set_field b (codes "device") device_id

unfoldable pub session : OtpContextBuilder → Bytes → OtpContextBuilder
session b value = set_field b (codes "session") value

unfoldable pub custom : OtpContextBuilder → Bytes → Bytes → OtpContextBuilder
custom b key value =
    if leb (length key) max_context_field_len then set_field b (codes "x-" ++ key) value else b

-- `if idx := strings.Index(s, c); idx != -1 { s = s[:idx] }` for a string of one byte.
unfoldable pub cut_at : ℕ → Bytes → Bytes
cut_at c s = elim (index_byte s c) [ none ↦ s | some i ↦ take i s ]

-- The scheme and the host of an origin that has a scheme.
unfoldable pub cut_path : Bytes → Bytes
cut_path s = elim (index_of s (codes "://")) [
  | none ↦ s
  | some i ↦ take i s ++ (codes "://" ++ cut_at b'/' (drop (i + 3) s))
]

-- `lower` maps runes to lower case.
module _ (lower : ℕ → ℕ) where
  unfoldable pub normalize_origin : Bytes → Bytes
  normalize_origin s =
      trim_suffix_byte (cut_path (cut_at b'?' (cut_at b'#' (to_lower lower (trim_space s))))) b'/'

  unfoldable pub normalize_context_label : Bytes → Bytes
  normalize_context_label value = to_lower lower (trim_space value)

  -- The empty string for a class that is not allowed.
  unfoldable pub normalize_distance_class : Bytes → Bytes
  normalize_distance_class class =
      let value = normalize_context_label class in
      if equal value (codes "same_area")
      then value
      else if equal value (codes "nearby")
      then value
      else if equal value (codes "far")
      then value
      else []

  unfoldable pub origin : OtpContextBuilder → Bytes → OtpContextBuilder
  origin b value = set_field b (codes "origin") (normalize_origin value)

  unfoldable pub region : OtpContextBuilder → Bytes → OtpContextBuilder
  region b value = set_field b (codes "region") (normalize_context_label value)

  unfoldable pub geo_bucket : OtpContextBuilder → Bytes → OtpContextBuilder
  geo_bucket b bucket = set_field b (codes "geo_bucket") (normalize_context_label bucket)

  unfoldable pub distance_class : OtpContextBuilder → Bytes → OtpContextBuilder
  distance_class b class =
      if length (normalize_distance_class class) == 0
      then b
      else set_field b (codes "distance_class") (normalize_distance_class class)

-- The order of strings, byte by byte.
unfoldable pub before : Bytes → Bytes → Bool
before [] [] = false
before [] (y ∷ b) = true
before (x ∷ a) [] = false
before (x ∷ a) (y ∷ b) =
    let rest = before a b in if ltb x y then true else if x == y then rest else false

-- sort.Strings
unfoldable pub insert_sorted : Bytes → List Bytes → List Bytes
insert_sorted k [] = k ∷ []
insert_sorted k (j ∷ js) =
    let rest = insert_sorted k js in if before j k then j ∷ rest else k ∷ j ∷ js

unfoldable pub sort_strings : List Bytes → List Bytes
sort_strings [] = []
sort_strings (k ∷ ks) = insert_sorted k (sort_strings ks)

-- `b.fields[k]`, the empty string for a missing key.
unfoldable pub field_of : Fields → Bytes → Bytes
field_of fields k = elim (lookup k fields) [ none ↦ [] | some v ↦ v ]

unfoldable pub write_fields : List Bytes → Fields → Bytes
write_fields [] fields = []
write_fields (k ∷ ks) fields = k ++ (b'=' ∷ (field_of fields k ++ (0 ∷ write_fields ks fields)))

unfoldable pub build : OtpContextBuilder → OtpContext
build b = record { bytes = write_fields (sort_strings (keys b.fields)) b.fields }
