-- ===== src/Otp/Rfc.antt =====
-- The codes that RFC 4226 defines, and the steps from a digest to such a code.
use genotp_go.Base.{
  ℕ, zero, suc, ◌%◌, ◌^◌, ◌≤◌, Bytes, [], ◌∷◌, length, All, IsByte, ◌≡◌, ◌≢◌, refl, arith,
}
use genotp_go.Errors.{ok}
use genotp_go.ConstantTime.Equality.{IsSlice}
use genotp_go.Algorithm.{HashFn, sha1_new, Hmac, digest_size}
use genotp_go.Otp.{dynamic_truncate, format_otp, code_buf}
use genotp_go.Otp.Decimal.{decimal, IsDigit, length-decimal, decimal-IsDigit, format_otp-decimal}
use genotp_go.Otp.Truncate.{extracted, dynamic_truncate-extracted}
use native.Mathlib.Nat.{one-le-pow}

-- The code for a key and a message: HMAC, dynamic truncation, and `d` decimal digits.
unfoldable pub rfc_code : Hmac → HashFn → Bytes → ℕ → Bytes → Bytes
rfc_code h f key d message = decimal d (extracted (h.mac f key message) % 10 ^ d)

-- `uint32(math.Pow10(digits))` loses nothing for 6, 7 and 8 digits.
pub pow10_small : (d : ℕ) → 6 ≤ d → d ≤ 8 → 10 ^ d % 2 ^ 32 ≡ 10 ^ d
pow10_small (suc (suc (suc (suc (suc (suc zero)))))) lo hi = refl
pow10_small (suc (suc (suc (suc (suc (suc (suc zero))))))) lo hi = refl
pow10_small (suc (suc (suc (suc (suc (suc (suc (suc zero)))))))) lo hi = refl
pow10_small _ lo hi = absurd (omega arith)

pow10_pos : (d : ℕ) → 10 ^ d ≢ 0
pow10_pos d = omega (arith, one-le-pow d 10)

digest_size-ge : (f : HashFn) → 20 ≤ digest_size f
digest_size-ge sha1_new = omega arith
digest_size-ge _ = omega arith

pub digest_at_least :
    (h : Hmac) (f : HashFn) (key message : Bytes) → 20 ≤ length (h.mac f key message)
digest_at_least h f key message = omega (arith, h.size f key message, digest_size-ge f)

pub digits-IsByte : (xs : Bytes) → All IsDigit xs → All IsByte xs
digits-IsByte [] h = tt
digits-IsByte (x ∷ xs) h = (omega arith, digits-IsByte xs h.1)

pub decimal-IsSlice : (d n : ℕ) → d ≤ 8 → IsSlice (decimal d n)
decimal-IsSlice d n h =
    (digits-IsByte (decimal d n) (decimal-IsDigit d n), omega (arith, length-decimal d n))

pub rfc_code-IsSlice :
    (h : Hmac) (f : HashFn) (key message : Bytes) (d : ℕ)
    → d ≤ 8
    → IsSlice (rfc_code h f key d message)
unfolding rfc_code
rfc_code-IsSlice h f key message d hd = decimal-IsSlice d _ hd

-- Truncation of a digest of at least 20 bytes never fails.
pub truncate_bytes :
    (digest : Bytes) (d m : ℕ)
    → m ≡ 10 ^ d
    → All IsByte digest
    → 20 ≤ length digest
    → dynamic_truncate digest m ≡ ok (extracted digest % 10 ^ d)
truncate_bytes digest d m is bytes size =
    rw is (dynamic_truncate-extracted digest (10 ^ d) bytes size (pow10_pos d))

pub truncate_digest :
    (h : Hmac) (f : HashFn) (key message : Bytes) (d m : ℕ)
    → m ≡ 10 ^ d
    → dynamic_truncate (h.mac f key message) m ≡ ok (extracted (h.mac f key message) % 10 ^ d)
truncate_digest h f key message d m is =
    truncate_bytes (h.mac f key message) d m is (h.bytes f key message)
      (digest_at_least h f key message)

-- Neither does the printing of the code.
pub format_code : (d code : ℕ) → d ≤ 8 → format_otp code_buf code d ≡ ok (decimal d code)
format_code d code h = format_otp-decimal code_buf code d (omega arith)
