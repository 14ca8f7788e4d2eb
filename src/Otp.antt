-- ===== src/Otp.antt =====
-- The parts that HOTP and TOTP share (hotp.go): the message, dynamic truncation and the digits.
pub mod Decimal
pub mod Truncate
pub mod Rfc
pub mod Message
use genotp_go.Base.{
  ℕ, zero, suc, ◌+◌, ◌-◌, ◌*◌, ◌/◌, ◌%◌, ◌^◌, bit_and, bit_or, Bool, ltb, ◌==◌, if◌then◌else◌, List,
  [], ◌∷◌, ◌++◌, length, get_elem?, set, take, Bytes, Option, none, some, codes,
}
use genotp_go.Errors.{Result, ok, err, panic, ◌>>=◌}

-- "genotp-ctx-v1\x00"
abbrev pub context_bind_tag : Bytes
context_bind_tag = codes "genotp-ctx-v1" ++ (0 ∷ [])

-- binary.BigEndian.PutUint64
unfoldable pub put_uint64 : ℕ → Bytes
put_uint64 v =
    v / 2 ^ 56 % 2 ^ 8
    ∷ v / 2 ^ 48 % 2 ^ 8
    ∷ v / 2 ^ 40 % 2 ^ 8
    ∷ v / 2 ^ 32 % 2 ^ 8
    ∷ v / 2 ^ 24 % 2 ^ 8
    ∷ v / 2 ^ 16 % 2 ^ 8
    ∷ v / 2 ^ 8 % 2 ^ 8
    ∷ v % 2 ^ 8
    ∷ []

-- What is hashed: the counter, and behind it the tag and the context unless that is empty.
unfoldable pub message_of : ℕ → Bytes → Bytes
message_of counter context =
    if ltb 0 (length context)
    then put_uint64 counter ++ (context_bind_tag ++ context)
    else put_uint64 counter

-- `b[i]`
unfoldable pub index : Bytes → ℕ → Result ℕ
index b i = elim (get_elem? b i) [ none ↦ panic | some x ↦ ok x ]

-- `b[len(b)-1]`
unfoldable pub last_byte : Bytes → Result ℕ
last_byte b = if length b == 0 then panic else index b (length b - 1)

unfoldable pub truncated_bits : ℕ → ℕ → ℕ → ℕ → ℕ
truncated_bits b0 b1 b2 b3 =
    bit_or
      (bit_or (bit_or (bit_and b0 0x7f * 2 ^ 24 % 2 ^ 32) (b1 * 2 ^ 16 % 2 ^ 32))
        (b2 * 2 ^ 8 % 2 ^ 32))
      b3

unfoldable pub dynamic_truncate : Bytes → ℕ → Result ℕ
dynamic_truncate hmac_bytes mod_value = do
  last ← last_byte hmac_bytes
  let offset = bit_and last 0x0f
  b0 ← index hmac_bytes offset
  b1 ← index hmac_bytes (offset + 1)
  b2 ← index hmac_bytes (offset + 2)
  b3 ← index hmac_bytes (offset + 3)
  if mod_value == 0 then panic else ok (truncated_bits b0 b1 b2 b3 % mod_value)

-- The loop of `formatOTP` over the positions below `i`, from the last one down.
unfoldable pub format_loop : ℕ → Bytes → ℕ → Bytes
format_loop zero dst code = dst
format_loop (suc i) dst code = format_loop i (set dst i ((b'0' + code % 10) % 2 ^ 8)) (code / 10)

unfoldable pub format_otp : Bytes → ℕ → ℕ → Result Bytes
format_otp dst code digits =
    if ltb (length dst) digits then panic else ok (take digits (format_loop digits dst code))

-- `var buf [8]byte`
abbrev pub code_buf : Bytes
code_buf = 0 ∷ 0 ∷ 0 ∷ 0 ∷ 0 ∷ 0 ∷ 0 ∷ 0 ∷ []
