-- ===== src/Base32/Decode.antt =====
-- `DecodeBase32` against the stream: when it succeeds, how many bytes it writes, and what it takes
-- for the bytes outside ASCII.
use genotp_go.Base.{
  ℕ, ◌+◌, ◌*◌, ◌/◌, ◌≤◌, ◌<◌, Bool, true, false, leb, ◌==◌, if◌then◌else◌, [], ◌∷◌, ◌++◌, length,
  set, drop, Bytes, some, ◌≡◌, ◌↔◌, refl, sym, ap, ◌∙◌, arith, inl, inr, Bool-cases, length-set,
  all_below, all_below_at, ◌-◌,
}
use genotp_go.Base.Int.{ℤ, pos, negsuc}
use genotp_go.Errors.{Result, ok, err, invalid_secret, dst_too_small}
use genotp_go.Base32.{
  b32_table, b32_inverse, is_skipped, kept, push5, top_byte, decode_loop, decode_base32,
}
use genotp_go.Base32.Stream.{
  decoded, decoded_more, decoded_byte, loop_more, loop_full, loop_byte, decoded_cases, decoded_bad,
  loop_bad, map-cons-some, decode_loop-decoded,
}
use mathlib.Core.Option
use mathlib.Core.Path.{subst}
use native.Mathlib.Decide.{dec_lt}

-- Every group of eight bits gives a byte, and what is left at the end is dropped.
pub length-decoded :
    (src out : Bytes) (buffer bits : ℕ)
    → bits < 8
    → decoded src buffer bits ≡ some out
    → length out ≡ (5 * length src + bits) / 8
length-decoded [] out buffer bits h e = unfold decoded in ground arith
length-decoded (c ∷ src) out buffer bits h e = elim (decoded_cases c) [
  | inr (n, bad) ↦ cc (decoded_bad c n buffer bits src bad)
  | inl (val, is) ↦ elim (dec_lt (bits + 5) 8) [
    | yes few ↦ omega (
      arith,
      length-decoded src out (push5 buffer val) (bits + 5) few
          (sym (decoded_more c val buffer bits src is few) ∙ e),
    )
    | no many ↦
        let b = top_byte (push5 buffer val) (bits + 5 - 8) in
        let (rest, e', o) =
          map-cons-some b (decoded src (push5 buffer val) (bits + 5 - 8)) out
            (sym (decoded_byte c val buffer bits src is (omega arith)) ∙ e) in
        omega (
          arith,
          ap length o,
          length-decoded src rest (push5 buffer val) (bits + 5 - 8) (omega arith) e',
        )
  ]
]

-- A loop that succeeds has read a whole stream, and had room for it.
loop_ok :
    (src dst dst' : Bytes) (i n buffer bits : ℕ)
    → i ≤ length dst
    → decode_loop src dst i buffer bits ≡ (dst', ok n)
    → (out : Bytes) × (decoded src buffer bits ≡ some out) × (n ≡ i + length out) × (n ≤ length dst)
loop_ok [] dst dst' i n buffer bits room e = (
  [],
  unfold decoded in refl,
  unfold decode_loop in ground arith,
  unfold decode_loop in ground arith,
)
loop_ok (c ∷ src) dst dst' i n buffer bits room e = elim (decoded_cases c) [
  | inr (k, bad) ↦ cc (loop_bad c k i buffer bits src dst bad)
  | inl (val, is) ↦ elim (dec_lt (bits + 5) 8) [
    | yes few ↦
        let (out, d, at, fits) =
          loop_ok src dst dst' i n (push5 buffer val) (bits + 5) room
            (sym (loop_more c val buffer bits src is dst i few) ∙ e) in
        (out, decoded_more c val buffer bits src is few ∙ d, at, fits)
    | no many ↦ elim (dec_lt i (length dst)) [
      | no full ↦ cc (loop_full c val buffer bits src is dst i (omega arith) (omega arith))
      | yes free ↦
          let b = top_byte (push5 buffer val) (bits + 5 - 8) in
          let (out, d, at, fits) =
            loop_ok src (set dst i b) dst' (i + 1) n (push5 buffer val) (bits + 5 - 8)
              (omega (arith, length-set dst i b))
              (sym (loop_byte c val buffer bits src is dst i (omega arith) free) ∙ e) in
          (
            b ∷ out,
            decoded_byte c val buffer bits src is (omega arith) ∙ ap (Option.map (◌∷◌ b)) d,
            omega arith,
            omega (arith, length-set dst i b),
          )
    ]
  ]
]

-- With no characters kept the early return does what the loop would.
early_return :
    (chars dst : Bytes)
    → (if length chars == 0 then (dst, ok 0) else decode_loop chars dst 0 0 0)
      ≡ decode_loop chars dst 0 0 0
unfolding decode_loop
early_return [] dst = refl
early_return (c ∷ chars) dst = ground arith

pub base32_loop : (dst src : Bytes) → decode_base32 dst src ≡ decode_loop (kept src) dst 0 0 0
unfolding decode_base32
base32_loop dst src = early_return (kept src) dst

-- `out` is the stream of the kept characters, it fits `dst`, and `dst'` is `dst` with `out`
-- written over its first n bytes; n is five eighths of the kept characters, rounded down.
abbrev pub Decodes : Bytes → Bytes → Bytes → ℕ → Bytes → Type 0
Decodes dst src dst' n out =
    (decoded (kept src) 0 0 ≡ some out)
    × (length out ≤ length dst)
    × (dst' ≡ out ++ drop (length out) dst)
    × (n ≡ length out)
    × (n ≡ 5 * length (kept src) / 8)

-- `DecodeBase32` returns n and no error exactly when the kept characters all stand for values and
-- the n bytes of their stream fit `dst`; then `dst` begins with those bytes and is otherwise
-- unchanged, and n is five eighths of the number of kept characters, rounded down.
pub decode_base32-ok_iff :
    (dst src dst' : Bytes) (n : ℕ)
    → (decode_base32 dst src ≡ (dst', ok n)) ↔ ((out : Bytes) × Decodes dst src dst' n out)
decode_base32-ok_iff dst src dst' n = (only, all)
  where
    only : decode_base32 dst src ≡ (dst', ok n) → (out : Bytes) × Decodes dst src dst' n out
    only e =
        let (out, d, at, fits) =
          loop_ok (kept src) dst dst' 0 n 0 0 (omega arith) (sym (base32_loop dst src) ∙ e) in
        (
          out,
          (
            d,
            omega arith,
            ap (λ (p : Bytes × Result ℕ). p.0)
                (sym e
                  ∙ base32_loop dst src
                  ∙ decode_loop-decoded (kept src) [] dst out 0 0 d (omega arith)),
            omega arith,
            omega (arith, length-decoded (kept src) out 0 0 (omega arith) d),
          ),
        )

    all : (out : Bytes) × Decodes dst src dst' n out → decode_base32 dst src ≡ (dst', ok n)
    all (out, (d, fits, is, at, _)) =
        base32_loop dst src ∙ decode_loop-decoded (kept src) [] dst out 0 0 d fits ∙ ground arith

-- A property of the table, checked by evaluation: no skipped character stands for a value.
abbrev skipped_is_none : ℕ → Bool
skipped_is_none c =
    if is_skipped c then elim (b32_inverse c) [ pos _ ↦ false | negsuc _ ↦ true ] else true

skipped_table : all_below 64 skipped_is_none ≡ true
unfolding all_below is_skipped b32_inverse b32_table
skipped_table = refl

is_skipped-lt : (c : ℕ) → is_skipped c ≡ true → c < 64
unfolding is_skipped
is_skipped-lt c h = ground arith

value-not_skipped : (c val : ℕ) → b32_inverse c ≡ pos val → is_skipped c ≡ false
value-not_skipped c val is = elim (Bool-cases (is_skipped c)) [
  | inr f ↦ f
  | inl t ↦
      absurd (ground (arith, all_below_at 64 skipped_is_none c (is_skipped-lt c t) skipped_table))
]

kept_value : (c val : ℕ) (src : Bytes) → b32_inverse c ≡ pos val → kept (c ∷ src) ≡ c ∷ kept src
unfolding kept
kept_value c val src is = rw (value-not_skipped c val is)

-- The first loop keeps a stream as it is.
pub kept_of_decoded :
    (src out : Bytes) (buffer bits : ℕ) → decoded src buffer bits ≡ some out → kept src ≡ src
kept_of_decoded [] out buffer bits e = unfold kept in refl
kept_of_decoded (c ∷ src) out buffer bits e = elim (decoded_cases c) [
  | inr (n, bad) ↦ cc (decoded_bad c n buffer bits src bad)
  | inl (val, is) ↦
      kept_value c val src is
      ∙ ap (◌∷◌ c) (elim (dec_lt (bits + 5) 8) [
        | yes few ↦
            kept_of_decoded src out (push5 buffer val) (bits + 5)
              (sym (decoded_more c val buffer bits src is few) ∙ e)
        | no many ↦
            let b = top_byte (push5 buffer val) (bits + 5 - 8) in
            let (rest, e', _) =
              map-cons-some b (decoded src (push5 buffer val) (bits + 5 - 8)) out
                (sym (decoded_byte c val buffer bits src is (omega arith)) ∙ e) in
            kept_of_decoded src rest (push5 buffer val) (bits + 5 - 8) e'
      ])
]

-- The upper half of the table is what Go fills in.
abbrev stands_for_zero : ℕ → Bool
stands_for_zero i = elim (b32_inverse (128 + i)) [ pos v ↦ v == 0 | negsuc _ ↦ false ]

upper_half : all_below 128 stands_for_zero ≡ true
unfolding all_below b32_inverse b32_table
upper_half = refl

stands_for_zero→eq : (i : ℕ) → stands_for_zero i ≡ true → b32_inverse (128 + i) ≡ pos 0
stands_for_zero→eq i h = ground arith

-- A byte beyond ASCII has the table's value of 'A'.
inverse_upper : (c : ℕ) → 128 ≤ c → c < 256 → b32_inverse c ≡ b32_inverse b'A'
inverse_upper c lo hi =
    subst (λ x. b32_inverse x ≡ b32_inverse b'A') back
      (stands_for_zero→eq (c - 128)
          (all_below_at 128 stands_for_zero (c - 128) (omega arith) upper_half)
        ∙ (unfold b32_inverse b32_table in refl))
  where
    back : 128 + (c - 128) ≡ c
    back = omega arith

-- One round of the loop, over what the loop does with the rest.
abbrev round : (Bytes → ℕ → ℕ → ℕ → Bytes × Result ℕ) → ℤ → Bytes → ℕ → ℕ → ℕ → Bytes × Result ℕ
round loop v dst i buffer bits = elim v [
  | negsuc _ ↦ (dst, err invalid_secret)
  | pos val ↦ elim (leb 8 (bits + 5)) [
    | false ↦ loop dst i (push5 buffer val) (bits + 5)
    | true ↦ elim (leb (length dst) i) [
      | true ↦ (dst, err dst_too_small)
      | false ↦
          loop (set dst i (top_byte (push5 buffer val) (bits + 5 - 8))) (i + 1) (push5 buffer val)
            (bits + 5 - 8)
    ]
  ]
]

loop_round : (c : ℕ) (src : Bytes) → decode_loop (c ∷ src) ≡ round (decode_loop src) (b32_inverse c)
unfolding decode_loop
loop_round c src = refl

loop_same_value :
    (xs ys : Bytes) (c c' : ℕ)
    → b32_inverse c ≡ b32_inverse c'
    → decode_loop (xs ++ (c ∷ ys)) ≡ decode_loop (xs ++ (c' ∷ ys))
loop_same_value [] ys c c' same = rw (loop_round, same, loop_round)
loop_same_value (x ∷ xs) ys c c' same =
    loop_round x (xs ++ (c ∷ ys))
    ∙ ap (λ loop. round loop (b32_inverse x)) (loop_same_value xs ys c c' same)
    ∙ sym (loop_round x (xs ++ (c' ∷ ys)))

kept-append : (xs ys : Bytes) → kept (xs ++ ys) ≡ kept xs ++ kept ys
unfolding kept
kept-append [] ys = refl
kept-append (x ∷ xs) ys = ground (arith, kept-append xs ys)

kept_upper : (c : ℕ) (src : Bytes) → 128 ≤ c → kept (c ∷ src) ≡ c ∷ kept src
unfolding kept is_skipped
kept_upper c src h = ground arith

kept_A : (src : Bytes) → kept (b'A' ∷ src) ≡ b'A' ∷ kept src
unfolding kept is_skipped
kept_A src = refl

-- Wherever it stands in the input, a byte from 0x80 on has the effect of the letter 'A' in its place.
pub decode_base32_non_ascii :
    (dst xs ys : Bytes) (c : ℕ)
    → 128 ≤ c
    → c < 256
    → decode_base32 dst (xs ++ (c ∷ ys)) ≡ decode_base32 dst (xs ++ (b'A' ∷ ys))
decode_base32_non_ascii dst xs ys c lo hi =
    base32_loop dst (xs ++ (c ∷ ys))
    ∙ ap (λ loop. loop dst 0 0 0)
        (ap decode_loop
            (kept-append xs (c ∷ ys) ∙ ap (λ (t : Bytes). kept xs ++ t) (kept_upper c ys lo))
          ∙ loop_same_value (kept xs) (kept ys) c b'A' (inverse_upper c lo hi)
          ∙ ap decode_loop
              (sym (kept-append xs (b'A' ∷ ys) ∙ ap (λ (t : Bytes). kept xs ++ t) (kept_A ys))))
    ∙ sym (base32_loop dst (xs ++ (b'A' ∷ ys)))
