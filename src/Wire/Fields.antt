-- ===== src/Wire/Fields.antt =====
-- Fields: what the writers of migration.go append, the readers take off the front, and every reader
-- takes something off.
use genotp_go.Base.{
  ℕ, zero, suc, ◌+◌, ◌*◌, ◌%◌, ◌^◌, ◌≤◌, ◌<◌, bit_and, bit_or, ltb, if◌then◌else◌, [], ◌∷◌, ◌++◌,
  length, drop, length-append, take-length-append, drop-length-append, Bytes, ◌≡◌, ◌≢◌, refl, ap,
  ◌∙◌, arith,
}
use genotp_go.Errors.{Result, ok, err, panic, ◌>>=◌, invalid_migration}
use genotp_go.Wire.{
  varint_loop, read_proto_varint, read_proto_bytes, read_proto_scalar, slice_at,
  checked_uint64_to_int, varint,
}
use genotp_go.Wire.Varint.{read_proto_varint-varint}

pub varint_loop-shorter :
    (bytes : Bytes) (value shift : ℕ) (v : ℕ) (rest : Bytes)
    → varint_loop bytes value shift ≡ ok (v, rest)
    → length rest < length bytes
unfolding varint_loop
varint_loop-shorter [] value shift v rest e = absurd (ground (arith, e))
varint_loop-shorter (b ∷ bytes) value shift v rest e = ground (
  arith,
  varint_loop-shorter bytes (bit_or value (bit_and b 0x7f * 2 ^ shift % 2 ^ 64)) (shift + 7) v rest,
)

-- A reader leaves fewer than `n` bytes, and does not panic.
abbrev pub IsWithin {ℓ} : {A : Type ℓ} → ℕ → Result (A × Bytes) → Type 0
IsWithin n (ok (a, rest)) = length rest < n
IsWithin n (err e) = Unit {0}
IsWithin n panic = ⊥

varint_result : (bytes : Bytes) (value shift : ℕ) → varint_loop bytes value shift ≢ panic
unfolding varint_loop
varint_result [] value shift e = ground (arith, e)
varint_result (b ∷ bytes) value shift e =
    ground (
      arith,
      varint_result bytes (bit_or value (bit_and b 0x7f * 2 ^ shift % 2 ^ 64)) (shift + 7),
      e,
    )

pub read_proto_varint-IsWithin : (bytes : Bytes) → IsWithin (length bytes) (read_proto_varint bytes)
unfolding read_proto_varint
read_proto_varint-IsWithin bytes = go (varint_loop bytes 0 0) refl
  where
    go : (r : Result (ℕ × Bytes)) → varint_loop bytes 0 0 ≡ r → IsWithin (length bytes) r
    go (ok (v, rest)) e = varint_loop-shorter bytes 0 0 v rest e
    go (err x) e = tt
    go panic e = varint_result bytes 0 0 e

pub length-drop : (n : ℕ) (xs : Bytes) → length (drop n xs) ≤ length xs
length-drop zero xs = omega arith
length-drop (suc n) [] = omega arith
length-drop (suc n) (x ∷ xs) = omega (arith, length-drop n xs)

-- The bytes behind a length that was read.
abbrev pub cut : ℕ × Bytes → Result (Bytes × Bytes)
cut (size, rest) =
    checked_uint64_to_int size
    >>= (λ n. if ltb (length rest) n then err invalid_migration else slice_at n rest)

read_proto_bytes-cut : (bytes : Bytes) → read_proto_bytes bytes ≡ (read_proto_varint bytes >>= cut)
unfolding read_proto_bytes
read_proto_bytes-cut bytes = refl

cut-IsWithin : (n size : ℕ) (rest : Bytes) → length rest < n → IsWithin n (cut (size, rest))
unfolding checked_uint64_to_int slice_at
cut-IsWithin n size rest h = ground (arith, h, length-drop size rest)

-- A reader that goes on after another one.
pub bind-IsWithin :
    {A B : Type 0} (n : ℕ) (r : Result (A × Bytes)) (f : A × Bytes → Result (B × Bytes))
    → IsWithin n r
    → ((a : A) (rest : Bytes) → length rest < n → IsWithin n (f (a, rest)))
    → IsWithin n (r >>= f)
bind-IsWithin n (ok (a, rest)) f h k = k a rest h
bind-IsWithin n (err e) f h k = tt
bind-IsWithin n panic f h k = h

pub read_proto_bytes-IsWithin : (bytes : Bytes) → IsWithin (length bytes) (read_proto_bytes bytes)
read_proto_bytes-IsWithin bytes = rw (read_proto_bytes-cut bytes) (
    bind-IsWithin (length bytes) (read_proto_varint bytes) cut (read_proto_varint-IsWithin bytes)
      (λ size rest h. cut-IsWithin (length bytes) size rest h))

pub read_proto_scalar-IsWithin :
    (bytes : Bytes) (wire_type : ℕ) → IsWithin (length bytes) (read_proto_scalar bytes wire_type)
unfolding read_proto_scalar
read_proto_scalar-IsWithin bytes wire_type = ground (arith, read_proto_varint-IsWithin bytes)

-- The bytes of a field, with their length in front.
pub read_proto_bytes-varint :
    (value rest : Bytes)
    → length value < 2 ^ 63
    → read_proto_bytes (varint 10 (length value) ++ (value ++ rest)) ≡ ok (value, rest)
read_proto_bytes-varint value rest h =
    read_proto_bytes-cut (varint 10 (length value) ++ (value ++ rest))
    ∙ ap (◌>>= cut) (read_proto_varint-varint (length value) (value ++ rest) (omega arith))
    ∙ cut_whole value rest h
  where
    cut_whole :
        (value rest : Bytes)
        → length value < 2 ^ 63
        → cut (length value, value ++ rest) ≡ ok (value, rest)
    cut_whole value rest h =
        unfold checked_uint64_to_int slice_at in
        ground (
          arith,
          h,
          length-append value rest,
          take-length-append value rest,
          drop-length-append value rest,
        )
