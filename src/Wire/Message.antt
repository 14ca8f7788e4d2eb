-- ===== src/Wire/Message.antt =====
-- Messages field by field: the switches built from the readers, and what a message reads as while it
-- is being written.
use genotp_go.Base.{
  ℕ, ◌*◌, ◌/◌, ◌%◌, ◌^◌, ◌≤◌, ◌<◌, bit_and, bit_or, [], ◌++◌, length, Bytes, ◌≡◌, refl, ap, ◌∙◌,
  arith,
}
use mathlib.Core.List.{append_assoc}
use genotp_go.Errors.{Result, ok, err, panic, ◌>>=◌}
use genotp_go.Wire.{
  varint, append_proto_varint, append_proto_bytes_field, append_proto_varint_field, read_fields,
}
use genotp_go.Wire.Fields.{IsWithin, bind-IsWithin}
use genotp_go.Wire.Loop.{IsReader, IsDone, read_fields-tag}

-- Go code that reads a value, uses it and goes on behind it.
abbrev pub use_read : {A B : Type 0} → Result (A × Bytes) → (A → Result B) → Result (B × Bytes)
use_read r use_value = r >>= (λ t. use_value t.0 >>= (λ b. ok (b, t.1)))

pub IsWithin-weaken :
    {A : Type 0} (n m : ℕ) (r : Result (A × Bytes)) → n ≤ m → IsWithin n r → IsWithin m r
IsWithin-weaken n m (ok (a, rest)) le h = omega (arith, le, h)
IsWithin-weaken n m (err e) le h = tt
IsWithin-weaken n m panic le h = h

pub use_read-IsWithin :
    {A B : Type 0} (n : ℕ) (r : Result (A × Bytes)) (use_value : A → Result B)
    → IsWithin n r
    → ((a : A) → IsDone (use_value a))
    → IsWithin n (use_read r use_value)
use_read-IsWithin n r use_value within done =
    bind-IsWithin n r _ within (λ a rest h. kept n (use_value a) rest (done a) h)
  where
    kept :
        {B : Type 0} (n : ℕ) (r : Result B) (rest : Bytes)
        → IsDone r
        → length rest < n
        → IsWithin n (r >>= (λ b. ok (b, rest)))
    kept n (ok b) rest d h = h
    kept n (err e) rest d h = tt
    kept n panic rest d h = d

module _ {A : Type 0} (field : A → ℕ → ℕ → Bytes → Result (A × Bytes)) where
  -- Whatever comes behind `written`, reading from `a` gets past it to `a'`.
  abbrev pub ReadsAs : A → Bytes → A → Type 0
  ReadsAs a written a' =
      (body : Bytes) → read_fields field a (written ++ body) ≡ read_fields field a' body

  pub ReadsAs-nil : (a : A) → ReadsAs a [] a
  ReadsAs-nil a body = refl

  -- A tag and a part written behind what was written before.
  append_part :
      (a a' a'' : A) (written part : Bytes) (tag : ℕ)
      → IsReader field
      → tag < 2 ^ 64
      → ReadsAs a written a'
      → ((body : Bytes) → field a' (tag / 2 ^ 3) (bit_and tag 0x7) (part ++ body) ≡ ok (a'', body))
      → ReadsAs a (written ++ (varint 10 tag ++ part)) a''
  append_part a a' a'' written part tag reads small before step body =
      ap (read_fields field a) (append_assoc written (varint 10 tag ++ part) body)
      ∙ before ((varint 10 tag ++ part) ++ body)
      ∙ ap (read_fields field a') (append_assoc (varint 10 tag) part body)
      ∙ read_fields-tag field a' tag (part ++ body) reads small
      ∙ ap (◌>>= (λ r. read_fields field r.0 r.1)) (step body)

  pub ReadsAs-append_proto_varint_field :
      (a a' a'' : A) (written : Bytes) (number value : ℕ)
      → IsReader field
      → ReadsAs a written a'
      → ((body : Bytes)
          → field a'
              (number * 2 ^ 3 % 2 ^ 64 / 2 ^ 3)
              (bit_and (number * 2 ^ 3 % 2 ^ 64) 0x7)
              (varint 10 value ++ body)
            ≡ ok (a'', body))
      → ReadsAs a (append_proto_varint_field written number value) a''
  unfolding append_proto_varint_field append_proto_varint
  ReadsAs-append_proto_varint_field a a' a'' written number value reads before step body =
      ap (λ x. read_fields field a (x ++ body))
        (append_assoc written (varint 10 (number * 2 ^ 3 % 2 ^ 64)) (varint 10 value))
      ∙ append_part a a' a'' written (varint 10 value) (number * 2 ^ 3 % 2 ^ 64) reads (omega arith)
          before step body

  pub ReadsAs-append_proto_bytes_field :
      (a a' a'' : A) (written : Bytes) (number : ℕ) (value : Bytes)
      → IsReader field
      → bit_or (number * 2 ^ 3 % 2 ^ 64) 2 < 2 ^ 64
      → ReadsAs a written a'
      → ((body : Bytes)
          → field a'
              (bit_or (number * 2 ^ 3 % 2 ^ 64) 2 / 2 ^ 3)
              (bit_and (bit_or (number * 2 ^ 3 % 2 ^ 64) 2) 0x7)
              (varint 10 (length value) ++ (value ++ body))
            ≡ ok (a'', body))
      → ReadsAs a (append_proto_bytes_field written number value) a''
  unfolding append_proto_bytes_field append_proto_varint
  ReadsAs-append_proto_bytes_field a a' a'' written number value reads small before step body =
      let tag = bit_or (number * 2 ^ 3 % 2 ^ 64) 2 in
      ap (λ x. read_fields field a (x ++ body))
        (append_assoc (written ++ varint 10 tag) (varint 10 (length value)) value
          ∙ append_assoc written (varint 10 tag) (varint 10 (length value) ++ value))
      ∙ append_part a a' a'' written (varint 10 (length value) ++ value) tag reads small before
          (λ rest.
            ap (field a' (tag / 2 ^ 3) (bit_and tag 0x7))
              (append_assoc (varint 10 (length value)) value rest)
            ∙ step rest)
          body
