-- ===== src/Tests/Codes.antt =====
-- The comparisons, Base32, and the steps from a digest to a code, at concrete inputs.
use genotp_go.Base.{
  ◌%◌, ◌^◌, true, [], ◌∷◌, ◌++◌, drop, replicate, Bytes, codes, ◌≡◌, ◌↔◌, refl, arith, none,
}
use genotp_go.Base.Int.{negsuc}
use genotp_go.Tests.Data.{checked}
use genotp_go.Errors.{ok}
use genotp_go.ConstantTime.{const_time_eq_bytes}
use genotp_go.ConstantTime.Equality.{IsSlice, const_time_eq_bytes_iff}
use genotp_go.Base32.{decode_base32, encode_base32}
use genotp_go.Base32.Decode.{Decodes, decode_base32-ok_iff, decode_base32_non_ascii}
use genotp_go.Base32.RoundTrip.{decode_base32-encode_base32}
use genotp_go.Otp.{dynamic_truncate}
use genotp_go.Otp.Truncate.{extracted, dynamic_truncate-extracted}
use genotp_go.Totp.{checked_add_signed}
use genotp_go.Totp.Counter.{checked_add_signed_lem}

abbrev code_a : Bytes
code_a = codes "123456"

abbrev code_b : Bytes
code_b = codes "123457"

code_a-IsSlice : IsSlice code_a
code_a-IsSlice = (checked code_a refl, omega arith)

code_b-IsSlice : IsSlice code_b
code_b-IsSlice = (checked code_b refl, omega arith)

const_time_eq_bytes_iff_example : (const_time_eq_bytes code_a code_b ≡ true) ↔ (code_a ≡ code_b)
const_time_eq_bytes_iff_example =
    const_time_eq_bytes_iff code_a code_b code_a-IsSlice code_b-IsSlice

-- "MZXW-6ytb" is "fooba" with a separator and in both cases.
abbrev foobar : Bytes
foobar = codes "fooba"

decode_base32-ok_iff_example :
    (decode_base32 (replicate 6 0) (codes "MZXW-6ytb") ≡ (foobar ++ (0 ∷ []), ok 5))
    ↔ ((out : Bytes) × Decodes (replicate 6 0) (codes "MZXW-6ytb") (foobar ++ (0 ∷ [])) 5 out)
decode_base32-ok_iff_example =
    decode_base32-ok_iff (replicate 6 0) (codes "MZXW-6ytb") (foobar ++ (0 ∷ [])) 5

decode_base32-encode_base32_example :
    decode_base32 (replicate 6 0) (encode_base32 foobar) ≡ (foobar ++ drop 5 (replicate 6 0), ok 5)
decode_base32-encode_base32_example =
    decode_base32-encode_base32 foobar (replicate 6 0) (checked foobar refl) (omega arith)

decode_base32_non_ascii_example :
    decode_base32 (replicate 6 0) (codes "MZXW" ++ (200 ∷ codes "YTB"))
    ≡ decode_base32 (replicate 6 0) (codes "MZXW" ++ (b'A' ∷ codes "YTB"))
decode_base32_non_ascii_example =
    decode_base32_non_ascii (replicate 6 0) (codes "MZXW") (codes "YTB") 200 (omega arith)
      (omega arith)

-- A digest whose last byte points at offset 15.
abbrev digest : Bytes
digest = replicate 15 1 ++ (0xd0 ∷ 0x85 ∷ 0x12 ∷ 0x34 ∷ 0xff ∷ [])

dynamic_truncate-extracted_example :
    dynamic_truncate digest (10 ^ 6) ≡ ok (extracted digest % 10 ^ 6)
dynamic_truncate-extracted_example =
    dynamic_truncate-extracted digest (10 ^ 6) (checked digest refl) (omega arith) (omega arith)

checked_add_signed_example : checked_add_signed 5 (negsuc 6) ≡ none
checked_add_signed_example = checked_add_signed_lem 5 (negsuc 6) (omega arith) (omega arith)
