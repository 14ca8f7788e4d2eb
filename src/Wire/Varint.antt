-- ===== src/Wire/Varint.antt =====
-- Varints: what `appendProtoVarint` writes, `readProtoVarint` reads back.
use genotp_go.Base.{
  ℕ, zero, suc, ◌+◌, ◌*◌, ◌/◌, ◌%◌, ◌^◌, ◌≤◌, ◌<◌, bit_and, bit_or, true, ◌==◌, ==_iff, all_below,
  all_below_at, [], ◌∷◌, ◌++◌, length, Bytes, ◌≡◌, refl, ap, ◌∙◌, arith,
}
use genotp_go.Base.Bits.{bit_or_comm, bit_or_shifted, bit_and_0x7f}
use genotp_go.Errors.{ok}
use genotp_go.Wire.{varint, varint_loop, read_proto_varint}
use native.Mathlib.Nat.{pow-le-pow_right, mul-le-mul_right, add-mul, mul_assoc}
use native.Mathlib.Numerals.{towards_suc}
use native.Mathlib.Decide.{dec_lt}

high_bit_table : all_below 256 (λ x. bit_or x 0x80 == 128 + x % 128) ≡ true
unfolding all_below
high_bit_table = refl

pub high_bit : (v : ℕ) → bit_or (v % 2 ^ 8) 0x80 ≡ 128 + v % 128
high_bit v =
    (==_iff _ _).0 (
      all_below_at 256 (λ x. bit_or x 0x80 == 128 + x % 128) (v % 256) (omega arith) high_bit_table)
    ∙ omega arith

seven_more : (s : ℕ) → 2 ^ (s + 7) ≡ 128 * 2 ^ s
seven_more s = simp towards_suc (omega arith)

-- Seven bits put in front of those read so far.
or_read :
    (acc b s : ℕ)
    → acc < 2 ^ s
    → b % 128 * 2 ^ s < 2 ^ 64
    → bit_or acc (bit_and b 0x7f * 2 ^ s % 2 ^ 64) ≡ acc + b % 128 * 2 ^ s
or_read acc b s low fits =
    ap (λ m. bit_or acc (m * 2 ^ s % 2 ^ 64)) (bit_and_0x7f b)
    ∙ ap (bit_or acc) (omega arith)
    ∙ bit_or_comm acc (b % 128 * 2 ^ s)
    ∙ bit_or_shifted s (b % 128) acc low
    ∙ omega arith

round_last :
    (b : ℕ) (rest : Bytes) (acc s : ℕ)
    → b < 128
    → acc < 2 ^ s
    → b % 128 * 2 ^ s < 2 ^ 64
    → varint_loop (b ∷ rest) acc s ≡ ok (acc + b % 128 * 2 ^ s, rest)
unfolding varint_loop
round_last b rest acc s small low fits = ground (arith, or_read acc b s low fits)

round_more :
    (b : ℕ) (rest : Bytes) (acc s : ℕ)
    → 128 ≤ b
    → s + 7 ≤ 63
    → acc < 2 ^ s
    → b % 128 * 2 ^ s < 2 ^ 64
    → varint_loop (b ∷ rest) acc s ≡ varint_loop rest (acc + b % 128 * 2 ^ s) (s + 7)
unfolding varint_loop
round_more b rest acc s large room low fits =
    let next : varint_loop rest (bit_or acc (bit_and b 0x7f * 2 ^ s % 2 ^ 64)) (s + 7)
        ≡ varint_loop rest (acc + b % 128 * 2 ^ s) (s + 7) =
      ap (λ x. varint_loop rest x (s + 7)) (or_read acc b s low fits) in
    ground (arith, next)

-- One byte of a value above 127, and the rest of the value.
digit_of : (v p : ℕ) → v * p ≡ v % 128 * p + v / 128 * (128 * p)
digit_of v p =
    ap (λ x. x * p) (split v)
    ∙ add-mul (v % 128) (v / 128 * 128) p
    ∙ ap (λ x. v % 128 * p + x) (mul_assoc (v / 128) 128 p)
  where
    split : (v : ℕ) → v ≡ v % 128 + v / 128 * 128
    split v = omega arith

digit-le : (v p : ℕ) → v % 128 * p ≤ 127 * p
digit-le v p = mul-le-mul_right p (omega arith)

big : (s : ℕ) → 64 ≤ s + 7 → 2 ^ 64 ≤ 2 ^ (s + 7)
big s h = pow-le-pow_right (omega arith) h

shift_room : (v s : ℕ) → 128 ≤ v → v * 2 ^ s < 2 ^ 64 → s + 7 ≤ 63
shift_room v s large fits = elim (dec_lt 63 (s + 7)) [
  | no h ↦ omega arith
  | yes h ↦
      absurd (omega (arith, seven_more s, mul-le-mul_right (2 ^ s) large, big s (omega arith)))
]

varint_small : (n v : ℕ) → v < 128 → varint (suc n) v ≡ v ∷ []
unfolding varint
varint_small n v h = ground arith

varint_large : (n v : ℕ) → 128 ≤ v → varint (suc n) v ≡ (128 + v % 128) ∷ varint n (v / 128)
unfolding varint
varint_large n v h = ground (arith, high_bit v)

fits_now : (v acc p : ℕ) → acc + v * p < 2 ^ 64 → v % 128 * p < 2 ^ 64
fits_now v acc p h = omega (arith, digit_of v p)

-- A byte that is not the last one: what it leaves for the others.
pub record Rest (n v acc s : ℕ) : Type 0 where
  pub room : v / 128 < 2 ^ (7 * n)
  pub low : acc + v % 128 * 2 ^ s < 2 ^ (s + 7)
  pub fits : acc + v % 128 * 2 ^ s + v / 128 * 2 ^ (s + 7) < 2 ^ 64
  pub same : acc + v % 128 * 2 ^ s + v / 128 * 2 ^ (s + 7) ≡ acc + v * 2 ^ s
  pub shift : s + 7 ≤ 63

Rest-of :
    (n v acc s : ℕ)
    → 128 ≤ v
    → v < 2 ^ (7 * suc n)
    → acc < 2 ^ s
    → acc + v * 2 ^ s < 2 ^ 64
    → Rest n v acc s
Rest-of n v acc s large room low fits = record {
  room = omega (arith, seven_more (7 * n), ap (λ (k : ℕ). 2 ^ k) (seven_suc n));
  low = omega (arith, seven_more s, digit-le v (2 ^ s));
  fits = rw (seven_more s) (omega (arith, digit_of v (2 ^ s)));
  same = rw (seven_more s) (omega (arith, digit_of v (2 ^ s)));
  shift = shift_room v s large (omega arith);
}
  where
    seven_suc : (n : ℕ) → 7 * suc n ≡ 7 * n + 7
    seven_suc n = omega arith

varint_loop-varint :
    (n v acc s : ℕ) (rest : Bytes)
    → v < 2 ^ (7 * n)
    → 0 < n
    → acc < 2 ^ s
    → acc + v * 2 ^ s < 2 ^ 64
    → varint_loop (varint n v ++ rest) acc s ≡ ok (acc + v * 2 ^ s, rest)
varint_loop-varint zero v acc s rest room pos low fits = absurd (omega arith)
varint_loop-varint (suc n) v acc s rest room pos low fits = elim (dec_lt v 128) [
  | yes small ↦
      ap (λ x. varint_loop (x ++ rest) acc s) (varint_small n v small)
      ∙ round_last v rest acc s small low (fits_now v acc (2 ^ s) fits)
      ∙ ap (λ (x : ℕ). ok (acc + x * 2 ^ s, rest)) (omega arith)
  | no large ↦
      let r = Rest-of n v acc s (omega arith) room low fits in
      ap (λ x. varint_loop (x ++ rest) acc s) (varint_large n v (omega arith))
      ∙ round_more (128 + v % 128) (varint n (v / 128) ++ rest) acc s (omega arith) r.shift low
          (omega (arith, fits_now v acc (2 ^ s) fits, ap (λ (x : ℕ). x * 2 ^ s) (again v)))
      ∙ ap (λ x. varint_loop (varint n (v / 128) ++ rest) (acc + x * 2 ^ s) (s + 7)) (again v)
      ∙ varint_loop-varint n (v / 128) (acc + v % 128 * 2 ^ s) (s + 7) rest r.room
          (above n v r.room (omega arith)) r.low r.fits
      ∙ ap (λ (x : ℕ). ok (x, rest)) r.same
]
  where
    again : (v : ℕ) → (128 + v % 128) % 128 ≡ v % 128
    again v = omega arith

    above : (n v : ℕ) → v / 128 < 2 ^ (7 * n) → 128 ≤ v → 0 < n
    above zero v h large = absurd (omega arith)
    above (suc n) v h large = omega arith

-- A uint64 takes at most ten bytes as a varint, and `readProtoVarint` reads it back from in front of
-- any bytes that follow.
pub read_proto_varint-varint :
    (v : ℕ) (rest : Bytes) → v < 2 ^ 64 → read_proto_varint (varint 10 v ++ rest) ≡ ok (v, rest)
unfolding read_proto_varint
read_proto_varint-varint v rest h =
    varint_loop-varint 10 v 0 0 rest (omega arith) (omega arith) (omega arith) (omega arith)
    ∙ ap (λ (x : ℕ). ok (x, rest)) (omega arith)

-- A varint is not empty.
pub varint_pos : (v : ℕ) → 0 < length (varint 10 v)
unfolding varint
varint_pos v = ground arith
