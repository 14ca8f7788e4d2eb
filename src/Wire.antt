-- ===== src/Wire.antt =====
-- migration.go: the wire format of protocol buffers. A position in a slice is the rest of the slice
-- behind it, so a reader returns a value with the rest that follows it.
pub mod Varint
pub mod Fields
pub mod Loop
pub mod Message
use genotp_go.Base.{
  ℕ, zero, suc, ◌+◌, ◌-◌, ◌*◌, ◌/◌, ◌%◌, ◌^◌, bit_and, bit_or, Bool, true, false, ltb, leb, ◌==◌,
  if◌then◌else◌, List, [], ◌∷◌, ◌++◌, length, take, drop, Bytes,
}
use genotp_go.Errors.{Result, ok, err, panic, ◌>>=◌, invalid_migration}

-- The loop of `appendProtoVarint`, with `rounds` left; a uint64 takes at most ten bytes.
unfoldable pub varint : ℕ → ℕ → Bytes
varint zero value = []
varint (suc rounds) value =
    let more = bit_or (value % 2 ^ 8) 0x80 ∷ varint rounds (value / 2 ^ 7) in
    if leb 0x80 value then more else value % 2 ^ 8 ∷ []

unfoldable pub append_proto_varint : Bytes → ℕ → Bytes
append_proto_varint dst value = dst ++ varint 10 value

unfoldable pub append_proto_bytes_field : Bytes → ℕ → Bytes → Bytes
append_proto_bytes_field dst field value =
    append_proto_varint (append_proto_varint dst (bit_or (field * 2 ^ 3 % 2 ^ 64) 2)) (length value)
    ++ value

unfoldable pub append_proto_varint_field : Bytes → ℕ → ℕ → Bytes
append_proto_varint_field dst field value =
    append_proto_varint (append_proto_varint dst (field * 2 ^ 3 % 2 ^ 64)) value

-- The loop of `readProtoVarint`.
unfoldable pub varint_loop : Bytes → ℕ → ℕ → Result (ℕ × Bytes)
varint_loop [] value shift = err invalid_migration
varint_loop (b ∷ rest) value shift =
    let read = bit_or value (bit_and b 0x7f * 2 ^ shift % 2 ^ 64) in
    let next = varint_loop rest read (shift + 7) in
    if ltb b 0x80
    then ok (read, rest)
    else if ltb 63 (shift + 7)
    then err invalid_migration
    else next

unfoldable pub read_proto_varint : Bytes → Result (ℕ × Bytes)
read_proto_varint bytes = varint_loop bytes 0 0

-- `int` has 64 bits.
unfoldable pub checked_uint64_to_int : ℕ → Result ℕ
checked_uint64_to_int value = if ltb (2 ^ 63 - 1) value then err invalid_migration else ok value

unfoldable pub checked_uint64_to_int32 : ℕ → Result ℕ
checked_uint64_to_int32 value = if ltb (2 ^ 31 - 1) value then err invalid_migration else ok value

-- `data[next:next+n]` with the bytes behind it: a slice beyond the end of the data panics.
unfoldable pub slice_at : ℕ → Bytes → Result (Bytes × Bytes)
slice_at n rest = if ltb (length rest) n then panic else ok (take n rest, drop n rest)

-- An `end` behind the end of the slice is refused, and so is one that wraps.
unfoldable pub read_proto_bytes : Bytes → Result (Bytes × Bytes)
read_proto_bytes bytes = do
  (size, rest) ← read_proto_varint bytes
  int_size ← checked_uint64_to_int size
  if ltb (length rest) int_size then err invalid_migration else slice_at int_size rest

unfoldable pub read_proto_scalar : Bytes → ℕ → Result (ℕ × Bytes)
read_proto_scalar bytes wire_type =
    if wire_type == 0 then read_proto_varint bytes else err invalid_migration

unfoldable pub skip_proto_field : Bytes → ℕ → Result Bytes
skip_proto_field bytes wire_type =
    if wire_type == 0
    then (do (value, rest) ← read_proto_varint bytes; ok rest)
    else if wire_type == 2
    then (do (value, rest) ← read_proto_bytes bytes; ok rest)
    else err invalid_migration

-- `if err != nil { return ErrInvalidMigration }`
abbrev pub or_invalid {ℓ} : {A : Type ℓ} → Result A → Result A
or_invalid (ok a) = ok a
or_invalid (err e) = err invalid_migration
or_invalid panic = panic

-- The loop over the fields of a message: `field` is its switch on field number and wire type, which
-- returns the message so far and the rest. The fuel is the length of the message.
unfoldable pub field_loop :
    {A : Type 0} → (A → ℕ → ℕ → Bytes → Result (A × Bytes)) → ℕ → A → Bytes → Result A
field_loop field fuel a [] = ok a
field_loop field zero a (b ∷ bytes) = panic
field_loop field (suc fuel) a (b ∷ bytes) = do
  (tag, rest) ← or_invalid (read_proto_varint (b ∷ bytes))
  (a', rest') ← field a (tag / 2 ^ 3) (bit_and tag 0x7) rest
  field_loop field fuel a' rest'

unfoldable pub read_fields :
    {A : Type 0} → (A → ℕ → ℕ → Bytes → Result (A × Bytes)) → A → Bytes → Result A
read_fields field a bytes = field_loop field (length bytes) a bytes
