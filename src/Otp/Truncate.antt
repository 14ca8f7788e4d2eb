-- ===== src/Otp/Truncate.antt =====
-- Dynamic truncation against RFC 4226, section 5.3: the 31 low bits of the four bytes that the low
-- four bits of the last byte point at, read big-endian.
use genotp_go.Base.{
  ℕ, zero, suc, ◌+◌, ◌-◌, ◌*◌, ◌%◌, ◌^◌, ◌≤◌, ◌<◌, bit_and, bit_or, [], ◌∷◌, length, get_elem?,
  get_or, Bytes, All, IsByte, some, ◌≡◌, ◌≢◌, refl, ◌∙◌, arith,
}
use genotp_go.Base.Bits.{bit_or_shifted, bit_and_0x0f, bit_and_0x7f}
use genotp_go.Errors.{ok}
use genotp_go.Otp.{index, last_byte, truncated_bits, dynamic_truncate}

-- Four bytes as a big-endian number without its highest bit.
abbrev pub word31 : ℕ → ℕ → ℕ → ℕ → ℕ
word31 b0 b1 b2 b3 = (b0 * 2 ^ 24 + b1 * 2 ^ 16 + b2 * 2 ^ 8 + b3) % 2 ^ 31

-- One `|` of a value whose low `k` bits are free and a value of `k` bits.
or_sum : (k q x r y : ℕ) → x ≡ q * 2 ^ k → y ≡ r → r < 2 ^ k → bit_or x y ≡ q * 2 ^ k + r
or_sum k q x r y ex ey h = rw (ex, ey) (bit_or_shifted k q r h)

truncated_bits-word31 :
    (b0 b1 b2 b3 : ℕ)
    → b0 < 256
    → b1 < 256
    → b2 < 256
    → b3 < 256
    → truncated_bits b0 b1 b2 b3 ≡ word31 b0 b1 b2 b3
unfolding truncated_bits
truncated_bits-word31 b0 b1 b2 b3 h0 h1 h2 h3 =
    or_sum 8 ((b0 % 128 * 2 ^ 8 + b1) * 2 ^ 8 + b2) _ b3 b3
      (or_sum 16 (b0 % 128 * 2 ^ 8 + b1) _ (b2 * 2 ^ 8) _
          (or_sum 24 (b0 % 128) _ (b1 * 2 ^ 16) _ high (omega arith) (omega arith) ∙ omega arith)
          (omega arith) (omega arith)
        ∙ omega arith)
      refl (omega arith)
    ∙ omega arith
  where
    high : bit_and b0 0x7f * 2 ^ 24 % 2 ^ 32 ≡ b0 % 128 * 2 ^ 24
    high = omega (arith, bit_and_0x7f b0)

get_elem?-get_or : (xs : Bytes) (i : ℕ) → i < length xs → get_elem? xs i ≡ some (get_or xs i 0)
get_elem?-get_or [] i h = absurd (omega arith)
get_elem?-get_or (x ∷ xs) zero h = refl
get_elem?-get_or (x ∷ xs) (suc i) h = get_elem?-get_or xs i (omega arith)

pub get_or-IsByte : (xs : Bytes) (i : ℕ) → All IsByte xs → get_or xs i 0 < 256
get_or-IsByte [] i h = omega arith
get_or-IsByte (x ∷ xs) zero h = h.0
get_or-IsByte (x ∷ xs) (suc i) h = get_or-IsByte xs i h.1

-- The value that RFC 4226 extracts from a digest.
unfoldable pub extracted : Bytes → ℕ
extracted digest =
    let o = get_or digest (length digest - 1) 0 % 16 in
    word31 (get_or digest o 0) (get_or digest (o + 1) 0) (get_or digest (o + 2) 0)
      (get_or digest (o + 3) 0)

index-get_or : (xs : Bytes) (i : ℕ) → i < length xs → index xs i ≡ ok (get_or xs i 0)
unfolding index
index-get_or xs i h = ground (arith, get_elem?-get_or xs i h)

last_byte-get_or : (xs : Bytes) → 0 < length xs → last_byte xs ≡ ok (get_or xs (length xs - 1) 0)
unfolding last_byte
last_byte-get_or xs h = ground (arith, index-get_or xs (length xs - 1) (omega arith))

-- On a digest of at least 20 bytes truncation indexes within its bounds and returns the extracted
-- value modulo `mod_value`.
pub dynamic_truncate-extracted :
    (digest : Bytes) (mod_value : ℕ)
    → All IsByte digest
    → 20 ≤ length digest
    → mod_value ≢ 0
    → dynamic_truncate digest mod_value ≡ ok (extracted digest % mod_value)
unfolding dynamic_truncate extracted
dynamic_truncate-extracted digest m hb hl hm =
    let o = get_or digest (length digest - 1) 0 % 16 in
    let b = λ (i : ℕ). get_or digest (o + i) 0 in
    rw
      (
        last_byte-get_or digest (omega arith),
        bit_and_0x0f (get_or digest (length digest - 1) 0),
        index-get_or digest o (omega arith),
        index-get_or digest (o + 1) (omega arith),
        index-get_or digest (o + 2) (omega arith),
        index-get_or digest (o + 3) (omega arith),
        truncated_bits-word31 (get_or digest o 0) (b 1) (b 2) (b 3) (get_or-IsByte digest o hb)
            (get_or-IsByte digest (o + 1) hb) (get_or-IsByte digest (o + 2) hb)
            (get_or-IsByte digest (o + 3) hb),
      )
      (ground arith)
