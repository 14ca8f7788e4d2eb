-- ===== src/Provisioning.antt =====
-- provisioning.go: otpauth URIs, and the Base32 text that goes into them.
pub mod Percent
use genotp_go.Base.{
  ℕ, zero, suc, ◌+◌, ◌-◌, ◌*◌, ◌/◌, ◌%◌, ◌^◌, bit_and, Bool, true, false, not, ◌&&◌, ◌||◌, ltb, leb,
  ◌==◌, if◌then◌else◌, List, [], ◌∷◌, ◌++◌, length, get_or, Bytes, Option, none, some, codes,
}
use genotp_go.Base.Int.{ℤ}
use genotp_go.Algorithm.{Algorithm, to_string}
use genotp_go.Text.{Chunk, between, runes, encode_rune, is_space}

-- `type OtpType int`: two constants, and every other int.
pub data OtpType : Type 0 where
  hotp_type totp_type : OtpType
  other_type : ℤ → OtpType

pub record OtpAuthUri : Type 0 where
  pub typ : OtpType
  pub label : Bytes
  pub secret : Bytes
  pub issuer : Bytes
  pub algorithm : Option Algorithm
  pub digits : Option ℕ
  pub period : Option ℕ
  pub counter : Option ℕ

unfoldable pub new_otp_auth_uri : OtpType → Bytes → Bytes → OtpAuthUri
new_otp_auth_uri typ label secret = record {
  typ = typ;
  label = label;
  secret = secret;
  issuer = [];
  algorithm = none;
  digits = none;
  period = none;
  counter = none;
}

unfoldable pub with_issuer : OtpAuthUri → Bytes → OtpAuthUri
with_issuer u issuer = record u { issuer = issuer }

unfoldable pub with_algorithm : OtpAuthUri → Algorithm → OtpAuthUri
with_algorithm u algorithm = record u { algorithm = some algorithm }

unfoldable pub with_digits : OtpAuthUri → ℕ → OtpAuthUri
with_digits u digits = record u { digits = some digits }

unfoldable pub with_period : OtpAuthUri → ℕ → OtpAuthUri
with_period u period = record u { period = some period }

unfoldable pub with_counter : OtpAuthUri → ℕ → OtpAuthUri
with_counter u counter = record u { counter = some counter }

unfoldable pub should_not_encode : ℕ → Bool
should_not_encode b =
    if between b'A' b'Z' b
    then true
    else if between b'a' b'z' b
    then true
    else if between b'0' b'9' b
    then true
    else b == b'-' || b == b'.' || b == b'_' || b == b'~'

abbrev pub hex_upper : Bytes
hex_upper = codes "0123456789ABCDEF"

unfoldable pub percent_encode : Bytes → Bytes
percent_encode [] = []
percent_encode (b ∷ s) =
    let rest = percent_encode s in
    if should_not_encode b
    then b ∷ rest
    else b'%' ∷ get_or hex_upper (b / 2 ^ 4) 0 ∷ get_or hex_upper (bit_and b 0x0f) 0 ∷ rest

unfoldable pub is_whitespace : ℕ → Bool
is_whitespace c =
    if c == 9
      || c == 10
      || c == 11
      || c == 12
      || c == 13
      || c == b' '
      || c == 0x85
      || c == 0xa0
      || c == 0x1680
      || c == 0x2028
      || c == 0x2029
      || c == 0x202f
      || c == 0x205f
      || c == 0x3000
    then true
    else between 0x2000 0x200a c

-- The loop of `normalizeBase32Secret` over the runes.
unfoldable pub normalize_runes : List Chunk → Bytes
normalize_runes [] = []
normalize_runes (c ∷ cs) =
    let rest = normalize_runes cs in
    if not (c.0 == b'=') && not (is_whitespace c.0) then encode_rune c.0 ++ rest else rest

unfoldable pub normalize_base32_secret : Bytes → Bytes
normalize_base32_secret s = normalize_runes (runes s)

-- strconv.FormatUint(n, 10) of a uint64, which has at most twenty digits: `left` more may follow.
unfoldable pub format_digits : ℕ → ℕ → Bytes
format_digits zero n = []
format_digits (suc left) n =
    let high = format_digits left (n / 10) in
    if ltb n 10 then (b'0' + n) ∷ [] else high ++ ((b'0' + n % 10) ∷ [])

unfoldable pub format_uint : ℕ → Bytes
format_uint n = format_digits 20 n

-- The parameters that are written where they are set.
unfoldable pub optional_number : Bytes → Option ℕ → Bytes
optional_number name none = []
optional_number name (some n) = name ++ format_uint n

unfoldable pub optional_issuer : Bytes → Bytes
optional_issuer issuer =
    if length issuer == 0 then [] else codes "&issuer=" ++ percent_encode issuer

unfoldable pub optional_algorithm : Option Algorithm → Bytes
optional_algorithm none = []
optional_algorithm (some a) = codes "&algorithm=" ++ to_string a

unfoldable pub type_string : OtpType → Bytes
type_string hotp_type = codes "hotp"
type_string _ = codes "totp"

unfoldable pub build : OtpAuthUri → Bytes
build u =
    codes "otpauth://"
    ++ (type_string u.typ
        ++ (b'/' ∷ percent_encode u.label
            ++ (codes "?secret="
                ++ (percent_encode (normalize_base32_secret u.secret)
                    ++ (optional_issuer u.issuer
                        ++ (optional_algorithm u.algorithm
                            ++ (optional_number (codes "&digits=") u.digits
                                ++ (optional_number (codes "&period=") u.period
                                    ++ optional_number (codes "&counter=") u.counter))))))))
