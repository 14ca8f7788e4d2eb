-- ===== src/Base32/RoundTrip.antt =====
-- `DecodeBase32` reads back what `EncodeBase32` wrote.
use genotp_go.Base.{
  ℕ, ◌+◌, ◌-◌, ◌*◌, ◌/◌, ◌%◌, ◌^◌, ◌≤◌, ◌<◌, Bool, true, false, not, ◌&&◌, ltb, ◌==◌, if◌then◌else◌,
  [], ◌∷◌, ◌++◌, length, drop, Bytes, All, IsByte, some, ◌≡◌, refl, ap, ◌∙◌, arith, bit_or,
  all_below, all_below_at,
}
use genotp_go.Base.Bits.{bit_or_shifted, bit_and_0xff}
use genotp_go.Base.Int.{pos, negsuc}
use genotp_go.Errors.{ok}
use genotp_go.Base32.{
  b32_table, b32_inverse, is_skipped, push5, top_byte, decode_loop, decode_base32, b32_char,
  encode_groups, encode_base32,
}
use genotp_go.Base32.Decode.{base32_loop, kept_of_decoded}
use genotp_go.Base32.Stream.{decoded, decode_loop-decoded}
use mathlib.Core.Option
use mathlib.Core.Path.{ap₂}

-- The alphabet has 32 characters, so its laws are checked by evaluation.
abbrev reads_back : ℕ → Bool
reads_back v =
    elim (b32_inverse (b32_char v)) [ pos w ↦ w == v | negsuc _ ↦ false ]
    && not (is_skipped (b32_char v))

alphabet : all_below 32 reads_back ≡ true
unfolding all_below b32_inverse b32_table b32_char is_skipped
alphabet = refl

inverse_char : (v : ℕ) → v < 32 → b32_inverse (b32_char v) ≡ pos v
inverse_char v h = ground (arith, all_below_at 32 reads_back v h alphabet)

skipped_char : (v : ℕ) → v < 32 → is_skipped (b32_char v) ≡ false
skipped_char v h = ground (arith, all_below_at 32 reads_back v h alphabet)

-- The decoder's buffer after five more bits, and the byte that it writes, in plain arithmetic.
abbrev shifted : ℕ → ℕ → ℕ
shifted buffer v = buffer % 2 ^ 59 * 2 ^ 5 + v

push5-shifted : (buffer v : ℕ) → v < 32 → push5 buffer v ≡ shifted buffer v
push5-shifted buffer v h = ap (λ (t : ℕ). bit_or t v) high ∙ bit_or_shifted 5 (buffer % 2 ^ 59) v h
  where
    high : buffer * 2 ^ 5 % 2 ^ 64 ≡ buffer % 2 ^ 59 * 2 ^ 5
    high = omega arith

top_byte_lem : (buffer bits : ℕ) → top_byte buffer bits ≡ buffer / 2 ^ bits % 256
top_byte_lem buffer bits = rw bit_and_0xff (omega arith)

decoded_char :
    (v buffer bits : ℕ) (rest : Bytes)
    → v < 32
    → decoded (b32_char v ∷ rest) buffer bits ≡ (
        if ltb (bits + 5) 8
        then decoded rest (shifted buffer v) (bits + 5)
        else Option.map
            (◌∷◌ (shifted buffer v / 2 ^ (bits + 5 - 8) % 256))
            (decoded rest (shifted buffer v) (bits + 5 - 8)))
unfolding decoded
decoded_char v buffer bits rest h = ground (
  arith,
  inverse_char v h,
  push5-shifted buffer v h,
  top_byte_lem (shifted buffer v) (bits + 5 - 8),
)

decoded_nil : (buffer bits : ℕ) → decoded [] buffer bits ≡ some []
unfolding decoded
decoded_nil buffer bits = refl

-- The encoder holds back `k` bits and the decoder `d`, and `k + d` is 0 or 8: then the bits in
-- flight are one byte. One lemma for each of the five pairs that occur.
mutual
  unfolding encode_groups

  hold0 :
      (xs : Bytes) (buffer : ℕ) → All IsByte xs → decoded (encode_groups xs 0 0) buffer 0 ≡ some xs
  hold0 [] buffer h = decoded_nil buffer 0
  hold0 (b ∷ xs) buffer h =
      let v = (0 + b) / 2 ^ 3 in
      decoded_char v buffer 0 _ (omega arith)
      ∙ hold3 xs ((0 + b) % 8) (shifted buffer v) (omega arith) h.1
      ∙ ap (λ (t : ℕ). some (t ∷ xs)) (omega arith)

  hold3 :
      (xs : Bytes) (acc buffer : ℕ)
      → acc < 8
      → All IsByte xs
      → decoded (encode_groups xs acc 3) buffer 5 ≡ some ((buffer % 32 * 8 + acc) ∷ xs)
  hold3 [] acc buffer ha h =
      decoded_char (acc * 2 ^ 2) buffer 5 [] (omega arith)
      ∙ ap (Option.map (◌∷◌ (shifted buffer (acc * 2 ^ 2) / 2 ^ 2 % 256))) (decoded_nil _ 2)
      ∙ ap (λ (t : ℕ). some (t ∷ [])) (omega arith)
  hold3 (b ∷ xs) acc buffer ha h =
      let word = acc * 2 ^ 8 + b in
      let v = word / 2 ^ 6 in
      let w = word / 2 ^ 1 % 2 ^ 5 in
      decoded_char v buffer 5 _ (omega arith)
      ∙ ap (Option.map (◌∷◌ (shifted buffer v / 2 ^ 2 % 256))) (
          decoded_char w (shifted buffer v) 2 _ (omega arith)
          ∙ hold1 xs (word % 2 ^ 1) (shifted (shifted buffer v) w) (omega arith) h.1)
      ∙ ap₂ (λ (s t : ℕ). some (s ∷ t ∷ xs)) (omega arith) (omega arith)

  hold1 :
      (xs : Bytes) (acc buffer : ℕ)
      → acc < 2
      → All IsByte xs
      → decoded (encode_groups xs acc 1) buffer 7 ≡ some ((buffer % 128 * 2 + acc) ∷ xs)
  hold1 [] acc buffer ha h =
      decoded_char (acc * 2 ^ 4) buffer 7 [] (omega arith)
      ∙ ap (Option.map (◌∷◌ (shifted buffer (acc * 2 ^ 4) / 2 ^ 4 % 256))) (decoded_nil _ 4)
      ∙ ap (λ (t : ℕ). some (t ∷ [])) (omega arith)
  hold1 (b ∷ xs) acc buffer ha h =
      let word = acc * 2 ^ 8 + b in
      let v = word / 2 ^ 4 in
      decoded_char v buffer 7 _ (omega arith)
      ∙ ap (Option.map (◌∷◌ (shifted buffer v / 2 ^ 4 % 256)))
          (hold4 xs (word % 2 ^ 4) (shifted buffer v) (omega arith) h.1)
      ∙ ap₂ (λ (s t : ℕ). some (s ∷ t ∷ xs)) (omega arith) (omega arith)

  hold4 :
      (xs : Bytes) (acc buffer : ℕ)
      → acc < 16
      → All IsByte xs
      → decoded (encode_groups xs acc 4) buffer 4 ≡ some ((buffer % 16 * 16 + acc) ∷ xs)
  hold4 [] acc buffer ha h =
      decoded_char (acc * 2 ^ 1) buffer 4 [] (omega arith)
      ∙ ap (Option.map (◌∷◌ (shifted buffer (acc * 2 ^ 1) / 2 ^ 1 % 256))) (decoded_nil _ 1)
      ∙ ap (λ (t : ℕ). some (t ∷ [])) (omega arith)
  hold4 (b ∷ xs) acc buffer ha h =
      let word = acc * 2 ^ 8 + b in
      let v = word / 2 ^ 7 in
      let w = word / 2 ^ 2 % 2 ^ 5 in
      decoded_char v buffer 4 _ (omega arith)
      ∙ ap (Option.map (◌∷◌ (shifted buffer v / 2 ^ 1 % 256))) (
          decoded_char w (shifted buffer v) 1 _ (omega arith)
          ∙ hold2 xs (word % 2 ^ 2) (shifted (shifted buffer v) w) (omega arith) h.1)
      ∙ ap₂ (λ (s t : ℕ). some (s ∷ t ∷ xs)) (omega arith) (omega arith)

  hold2 :
      (xs : Bytes) (acc buffer : ℕ)
      → acc < 4
      → All IsByte xs
      → decoded (encode_groups xs acc 2) buffer 6 ≡ some ((buffer % 64 * 4 + acc) ∷ xs)
  hold2 [] acc buffer ha h =
      decoded_char (acc * 2 ^ 3) buffer 6 [] (omega arith)
      ∙ ap (Option.map (◌∷◌ (shifted buffer (acc * 2 ^ 3) / 2 ^ 3 % 256))) (decoded_nil _ 3)
      ∙ ap (λ (t : ℕ). some (t ∷ [])) (omega arith)
  hold2 (b ∷ xs) acc buffer ha h =
      let word = acc * 2 ^ 8 + b in
      let v = word / 2 ^ 5 in
      let w = word / 2 ^ 0 % 2 ^ 5 in
      decoded_char v buffer 6 _ (omega arith)
      ∙ ap (Option.map (◌∷◌ (shifted buffer v / 2 ^ 3 % 256))) (
          decoded_char w (shifted buffer v) 3 _ (omega arith)
          ∙ ap (Option.map (◌∷◌ (shifted (shifted buffer v) w / 2 ^ 0 % 256))) (
              ap (λ (t : ℕ). decoded (encode_groups xs t 0) (shifted (shifted buffer v) w) 0)
                (omega arith)
              ∙ hold0 xs (shifted (shifted buffer v) w) h.1))
      ∙ ap₂ (λ (s t : ℕ). some (s ∷ t ∷ xs)) (omega arith) (omega arith)

-- The encoding as a stream is the data.
pub decoded-encode : (xs : Bytes) → All IsByte xs → decoded (encode_base32 xs) 0 0 ≡ some xs
unfolding encode_base32
decoded-encode xs h = hold0 xs 0 h

-- Into a buffer of at least as many bytes as were encoded, `DecodeBase32` writes them back, leaves
-- the bytes behind them alone, and returns their number.
pub decode_base32-encode_base32 :
    (xs dst : Bytes)
    → All IsByte xs
    → length xs ≤ length dst
    → decode_base32 dst (encode_base32 xs) ≡ (xs ++ drop (length xs) dst, ok (length xs))
decode_base32-encode_base32 xs dst h fits =
    base32_loop dst (encode_base32 xs)
    ∙ ap (λ (t : Bytes). decode_loop t dst 0 0 0)
        (kept_of_decoded (encode_base32 xs) xs 0 0 (decoded-encode xs h))
    ∙ decode_loop-decoded (encode_base32 xs) [] dst xs 0 0 (decoded-encode xs h) fits
    ∙ ap (λ (n : ℕ). (xs ++ drop (length xs) dst, ok n)) (omega arith)
