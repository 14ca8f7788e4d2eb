-- ===== src/Base32/Stream.antt =====
-- What the decoder reads as a stream of bytes, with the destination forgotten, and how
-- `decode_loop` writes that stream.
use genotp_go.Base.{
  ℕ, suc, ◌+◌, ◌-◌, ◌≤◌, ◌<◌, true, false, leb, [], ◌∷◌, ◌++◌, length, set, drop, Bytes, Option,
  none, some, ◌≡◌, refl, sym, ap, ◌∙◌, ◌⊎◌, inl, inr, arith, length-append,
}
use genotp_go.Base.Int.{ℤ, pos, negsuc}
use genotp_go.Errors.{ok, err, invalid_secret, dst_too_small}
use genotp_go.Base32.{b32_inverse, push5, top_byte, decode_loop}
use mathlib.Core.List.{append_assoc}
use mathlib.Core.Option
use native.Mathlib.Decide.{dec_lt}

-- The bytes that the characters stand for; `none` at a character outside the alphabet.
unfoldable pub decoded : Bytes → ℕ → ℕ → Option Bytes
decoded [] buffer bits = some []
decoded (c ∷ buf) buffer bits = elim (b32_inverse c) [
  | negsuc _ ↦ none
  | pos val ↦ elim (leb 8 (bits + 5)) [
    | false ↦ decoded buf (push5 buffer val) (bits + 5)
    | true ↦
        Option.map (◌∷◌ (top_byte (push5 buffer val) (bits + 5 - 8)))
          (decoded buf (push5 buffer val) (bits + 5 - 8))
  ]
]

set-length-append :
    (front back : Bytes) (x v : ℕ)
    → set (front ++ (x ∷ back)) (length front) v ≡ front ++ (v ∷ back)
set-length-append [] back x v = refl
set-length-append (y ∷ front) back x v = ap (◌∷◌ y) (set-length-append front back x v)

module _ (c val buffer bits : ℕ) (src : Bytes) (is : b32_inverse c ≡ pos val) where
  pub decoded_more :
      bits + 5 < 8 → decoded (c ∷ src) buffer bits ≡ decoded src (push5 buffer val) (bits + 5)
  unfolding decoded
  decoded_more h = ground arith

  pub decoded_byte :
      8 ≤ bits + 5
      → decoded (c ∷ src) buffer bits
        ≡ Option.map
            (◌∷◌ (top_byte (push5 buffer val) (bits + 5 - 8)))
            (decoded src (push5 buffer val) (bits + 5 - 8))
  unfolding decoded
  decoded_byte h = ground arith

  pub loop_more :
      (dst : Bytes) (i : ℕ)
      → bits + 5 < 8
      → decode_loop (c ∷ src) dst i buffer bits
        ≡ decode_loop src dst i (push5 buffer val) (bits + 5)
  unfolding decode_loop
  loop_more dst i h = ground arith

  pub loop_full :
      (dst : Bytes) (i : ℕ)
      → 8 ≤ bits + 5
      → length dst ≤ i
      → decode_loop (c ∷ src) dst i buffer bits ≡ (dst, err dst_too_small)
  unfolding decode_loop
  loop_full dst i h full = ground arith

  pub loop_byte :
      (dst : Bytes) (i : ℕ)
      → 8 ≤ bits + 5
      → i < length dst
      → decode_loop (c ∷ src) dst i buffer bits
        ≡ decode_loop src
            (set dst i (top_byte (push5 buffer val) (bits + 5 - 8)))
            (i + 1)
            (push5 buffer val)
            (bits + 5 - 8)
  unfolding decode_loop
  loop_byte dst i h room = ground arith

-- `dst` as the loop leaves it: what was written, the stream, and what it did not reach.
abbrev pub written : Bytes → Bytes → Bytes → Bytes
written front out back = front ++ (out ++ drop (length out) back)

pub decoded_cases :
    (c : ℕ) → ((val : ℕ) × (b32_inverse c ≡ pos val)) ⊎ ((n : ℕ) × (b32_inverse c ≡ negsuc n))
decoded_cases c = go (b32_inverse c) refl
  where
    go :
        (v : ℤ)
        → b32_inverse c ≡ v
        → ((val : ℕ) × (b32_inverse c ≡ pos val)) ⊎ ((n : ℕ) × (b32_inverse c ≡ negsuc n))
    go (pos val) e = inl (val, e)
    go (negsuc n) e = inr (n, e)

pub decoded_bad :
    (c n buffer bits : ℕ) (src : Bytes)
    → b32_inverse c ≡ negsuc n
    → decoded (c ∷ src) buffer bits ≡ none
unfolding decoded
decoded_bad c n buffer bits src h = ground arith

pub loop_bad :
    (c n i buffer bits : ℕ) (src dst : Bytes)
    → b32_inverse c ≡ negsuc n
    → decode_loop (c ∷ src) dst i buffer bits ≡ (dst, err invalid_secret)
unfolding decode_loop
loop_bad c n i buffer bits src dst h = ground arith

pub map-cons-some :
    (b : ℕ) (o : Option Bytes) (out : Bytes)
    → Option.map (◌∷◌ b) o ≡ some out
    → (rest : Bytes) × (o ≡ some rest) × (out ≡ b ∷ rest)
map-cons-some b none out h = cc
map-cons-some b (some rest) out h = (rest, refl, cc)

-- One byte is written at the end of `front`, and the rest of the run goes on from there.
module _ (c val buffer bits b : ℕ) (src front rest : Bytes) (is : b32_inverse c ≡ pos val) where
  write_byte :
      (back : Bytes)
      → 8 ≤ bits + 5
      → b ≡ top_byte (push5 buffer val) (bits + 5 - 8)
      → length rest < length back
      → ((back' : Bytes)
          → length rest ≤ length back'
          → decode_loop src
              ((front ++ (b ∷ [])) ++ back')
              (length (front ++ (b ∷ [])))
              (push5 buffer val)
              (bits + 5 - 8)
            ≡ (
              written (front ++ (b ∷ [])) rest back',
              ok (length (front ++ (b ∷ [])) + length rest),
            ))
      → decode_loop (c ∷ src) (front ++ back) (length front) buffer bits
        ≡ (written front (b ∷ rest) back, ok (length front + length (b ∷ rest)))
  write_byte [] many at fits run = absurd (omega arith)
  write_byte (x ∷ back) many at fits run =
      rw
        (
          loop_byte c val buffer bits src is (front ++ (x ∷ back)) (length front) many
              (omega (arith, length-append front (x ∷ back))),
          ← at,
          set-length-append front back x b,
        )
        (simp (append_assoc, length-append, sum) at (run back (omega arith)))
    where
      sum : length front + 1 + length rest ≡ length front + suc (length rest)
      sum = omega arith

-- Where the stream fits, it is written behind `front`, and the rest of `dst` stays.
pub decode_loop-decoded :
    (src front back out : Bytes) (buffer bits : ℕ)
    → decoded src buffer bits ≡ some out
    → length out ≤ length back
    → decode_loop src (front ++ back) (length front) buffer bits
      ≡ (written front out back, ok (length front + length out))
decode_loop-decoded [] front back out buffer bits e fits =
    unfold decoded decode_loop in ground arith
decode_loop-decoded (c ∷ src) front back out buffer bits e fits = elim (decoded_cases c) [
  | inr (n, bad) ↦ cc (decoded_bad c n buffer bits src bad)
  | inl (val, is) ↦ elim (dec_lt (bits + 5) 8) [
    | yes few ↦
        loop_more c val buffer bits src is (front ++ back) (length front) few
        ∙ decode_loop-decoded src front back out (push5 buffer val) (bits + 5)
            (sym (decoded_more c val buffer bits src is few) ∙ e) fits
    | no many ↦
        let b = top_byte (push5 buffer val) (bits + 5 - 8) in
        let (rest, e', o) =
          map-cons-some b (decoded src (push5 buffer val) (bits + 5 - 8)) out
            (sym (decoded_byte c val buffer bits src is (omega arith)) ∙ e) in
        rw o (
          write_byte c val buffer bits b src front rest is back (omega arith) refl
            (omega (arith, ap length o))
            (λ back' fits'.
              decode_loop-decoded src (front ++ (b ∷ [])) back' rest (push5 buffer val)
                (bits + 5 - 8) e' fits'))
  ]
]
