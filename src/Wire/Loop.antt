-- ===== src/Wire/Loop.antt =====
-- The loop over the fields of a message: it ends, its fuel does not matter, and it reads a message
-- that was written field by field.
use genotp_go.Base.{
  ℕ, zero, suc, ◌+◌, ◌/◌, ◌^◌, ◌≤◌, ◌<◌, bit_and, [], ◌∷◌, ◌++◌, length, length-append, Bytes, ◌≡◌,
  refl, sym, ap, ◌∙◌, arith,
}
use mathlib.Core.Path.{subst}
use genotp_go.Errors.{Result, ok, err, panic, ◌>>=◌}
use genotp_go.Wire.{or_invalid, field_loop, read_fields, read_proto_varint, varint}
use genotp_go.Wire.Varint.{read_proto_varint-varint, varint_pos}
use genotp_go.Wire.Fields.{IsWithin, read_proto_varint-IsWithin}

pub bind_cong :
    {A B : Type 0} (r : Result A) (f g : A → Result B)
    → ((a : A) → r ≡ ok a → f a ≡ g a)
    → (r >>= f) ≡ (r >>= g)
bind_cong (ok a) f g h = h a refl
bind_cong (err e) f g h = refl
bind_cong panic f g h = refl

pub or_invalid-IsWithin :
    {A : Type 0} (n : ℕ) (r : Result (A × Bytes)) → IsWithin n r → IsWithin n (or_invalid r)
or_invalid-IsWithin n (ok (a, rest)) h = h
or_invalid-IsWithin n (err e) h = tt
or_invalid-IsWithin n panic h = h

-- A value or an error, and no panic.
abbrev pub IsDone : {A : Type 0} → Result A → Type 0
IsDone (ok a) = Unit {0}
IsDone (err e) = Unit {0}
IsDone panic = ⊥

pub bind-IsDone :
    {A B : Type 0} (n : ℕ) (r : Result (A × Bytes)) (f : A × Bytes → Result B)
    → IsWithin n r
    → ((a : A) (rest : Bytes) → length rest < n → IsDone (f (a, rest)))
    → IsDone (r >>= f)
bind-IsDone n (ok (a, rest)) f h k = k a rest h
bind-IsDone n (err e) f h k = tt
bind-IsDone n panic f h k = h

within_of :
    {A : Type 0} (n : ℕ) (r : Result (A × Bytes)) (a : A) (rest : Bytes)
    → IsWithin n r
    → r ≡ ok (a, rest)
    → length rest < n
within_of n r a rest h e = subst (IsWithin n) e h

module _ {A : Type 0} (field : A → ℕ → ℕ → Bytes → Result (A × Bytes)) where
  -- A switch on a field that lengthens nothing and does not panic.
  abbrev pub IsReader : Type 0
  IsReader =
      (a : A) (number wire_type : ℕ) (bytes : Bytes)
      → IsWithin (length bytes + 1) (field a number wire_type bytes)

  -- One round, with the rest of the rounds as a function.
  abbrev round : (A → Bytes → Result A) → A → Bytes → Result A
  round next a bytes =
      or_invalid (read_proto_varint bytes)
      >>= (λ t. field a (t.0 / 2 ^ 3) (bit_and t.0 0x7) t.1 >>= (λ r. next r.0 r.1))

  round_of :
      (fuel : ℕ) (a : A) (b : ℕ) (bytes : Bytes)
      → field_loop field (suc fuel) a (b ∷ bytes) ≡ round (field_loop field fuel) a (b ∷ bytes)
  unfolding field_loop
  round_of fuel a b bytes = refl

  -- Rounds that agree on fewer bytes make rounds that agree.
  round_cong :
      (next next' : A → Bytes → Result A) (a : A) (bytes : Bytes)
      → IsReader
      → ((a' : A) (rest : Bytes) → length rest < length bytes → next a' rest ≡ next' a' rest)
      → round next a bytes ≡ round next' a bytes
  round_cong next next' a bytes reads agree =
      bind_cong (or_invalid (read_proto_varint bytes)) _ _ (λ t e.
        let shorter =
          within_of (length bytes) _ t.0 t.1
            (or_invalid-IsWithin (length bytes) _ (read_proto_varint-IsWithin bytes)) e in
        bind_cong (field a (t.0 / 2 ^ 3) (bit_and t.0 0x7) t.1) _ _ (λ r e'.
          let kept =
            within_of (length t.1 + 1) _ r.0 r.1 (reads a (t.0 / 2 ^ 3) (bit_and t.0 0x7) t.1) e' in
          agree r.0 r.1 (omega (arith, shorter, kept))))

  at_end : (n : ℕ) (a : A) → field_loop field n a [] ≡ ok a
  unfolding field_loop
  at_end zero a = refl
  at_end (suc n) a = refl

  -- Fuel beyond the number of bytes changes nothing.
  enough_fuel :
      (n m : ℕ) (a : A) (bytes : Bytes)
      → IsReader
      → length bytes ≤ n
      → length bytes ≤ m
      → field_loop field n a bytes ≡ field_loop field m a bytes
  enough_fuel n m a [] reads hn hm = at_end n a ∙ sym (at_end m a)
  enough_fuel zero m a (b ∷ bytes) reads hn hm = absurd (omega arith)
  enough_fuel (suc n) zero a (b ∷ bytes) reads hn hm = absurd (omega arith)
  enough_fuel (suc n) (suc m) a (b ∷ bytes) reads hn hm =
      round_of n a b bytes
      ∙ round_cong (field_loop field n) (field_loop field m) a (b ∷ bytes) reads
          (λ a' rest h. enough_fuel n m a' rest reads (omega arith) (omega arith))
      ∙ sym (round_of m a b bytes)

  -- Reading is a round and reading the rest.
  pub read_fields-round :
      (a : A) (b : ℕ) (bytes : Bytes)
      → IsReader
      → read_fields field a (b ∷ bytes) ≡ round (read_fields field) a (b ∷ bytes)
  unfolding read_fields
  read_fields-round a b bytes reads =
      round_of (length bytes) a b bytes
      ∙ round_cong (field_loop field (length bytes))
          (λ a' rest. field_loop field (length rest) a' rest) a (b ∷ bytes) reads
          (λ a' rest h.
            enough_fuel (length bytes) (length rest) a' rest reads (omega arith) (omega arith))

  pub read_fields-nil : (a : A) → read_fields field a [] ≡ ok a
  unfolding read_fields
  read_fields-nil a = at_end 0 a

  -- A field in front: its tag is read, and its switch reads the rest.
  pub read_fields-tag :
      (a : A) (tag : ℕ) (body : Bytes)
      → IsReader
      → tag < 2 ^ 64
      → read_fields field a (varint 10 tag ++ body)
        ≡ (field a (tag / 2 ^ 3) (bit_and tag 0x7) body >>= (λ r. read_fields field r.0 r.1))
  read_fields-tag a tag body reads small = go (varint 10 tag ++ body) refl
    where
      next : ℕ × Bytes → Result A
      next t = field a (t.0 / 2 ^ 3) (bit_and t.0 0x7) t.1 >>= (λ r. read_fields field r.0 r.1)

      go :
          (bytes : Bytes)
          → varint 10 tag ++ body ≡ bytes
          → read_fields field a bytes ≡ next (tag, body)
      go [] e =
          absurd (omega (arith, varint_pos tag, length-append (varint 10 tag) body, ap length e))
      go (b ∷ bytes) e =
          read_fields-round a b bytes reads
          ∙ ap (λ x. or_invalid (read_proto_varint x) >>= next) (sym e)
          ∙ ap (λ r. or_invalid r >>= next) (read_proto_varint-varint tag body small)

  -- The loop ends with a message or an error for any bytes: it never runs out of fuel.
  pub field_loop-IsDone :
      (n : ℕ) (a : A) (bytes : Bytes)
      → IsReader
      → length bytes ≤ n
      → IsDone (field_loop field n a bytes)
  field_loop-IsDone n a [] reads h = rw (at_end n a) tt
  field_loop-IsDone zero a (b ∷ bytes) reads h = absurd (omega arith)
  field_loop-IsDone (suc n) a (b ∷ bytes) reads h =
      let all = b ∷ bytes in
      rw (round_of n a b bytes) (
        bind-IsDone (length all) (or_invalid (read_proto_varint all)) _
          (or_invalid-IsWithin (length all) _ (read_proto_varint-IsWithin all))
          (λ tag rest shorter.
            bind-IsDone (length rest + 1) (field a (tag / 2 ^ 3) (bit_and tag 0x7) rest) _
              (reads a (tag / 2 ^ 3) (bit_and tag 0x7) rest)
              (λ a' rest' kept. field_loop-IsDone n a' rest' reads (omega arith))))

  pub read_fields-IsDone : (a : A) (bytes : Bytes) → IsReader → IsDone (read_fields field a bytes)
  unfolding read_fields
  read_fields-IsDone a bytes reads = field_loop-IsDone (length bytes) a bytes reads (omega arith)
