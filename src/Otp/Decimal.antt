-- ===== src/Otp/Decimal.antt =====
-- `formatOTP` writes the decimal digits of the code.
use genotp_go.Base.{
  ℕ, zero, suc, ◌+◌, ◌-◌, ◌*◌, ◌/◌, ◌%◌, ◌^◌, ◌≤◌, ◌<◌, [], ◌∷◌, ◌++◌, length, set, take, drop,
  Bytes, All, All-append, length-append, length-set, take-length-append, ◌≡◌, refl, sym, ap, ◌∙◌,
  arith,
}
use genotp_go.Errors.{ok}
use genotp_go.Otp.{format_loop, format_otp}
use mathlib.Core.List.{append_assoc}
use mathlib.Core.Path.{subst}
use native.Mathlib.Nat.{pow-suc}

-- The lowest `d` decimal digits of a number, the highest first.
unfoldable pub decimal : ℕ → ℕ → Bytes
decimal zero n = []
decimal (suc d) n = decimal d (n / 10) ++ ((b'0' + n % 10) ∷ [])

pub length-decimal : (d n : ℕ) → length (decimal d n) ≡ d
unfolding decimal
length-decimal zero n = refl
length-decimal (suc d) n =
    omega
      (arith, length-append (decimal d (n / 10)) ((b'0' + n % 10) ∷ []), length-decimal d (n / 10))

abbrev pub IsDigit : ℕ → Type 0
IsDigit c = (b'0' ≤ c) × (c ≤ b'9')

pub decimal-IsDigit : (d n : ℕ) → All IsDigit (decimal d n)
unfolding decimal
decimal-IsDigit zero n = tt
decimal-IsDigit (suc d) n =
    All-append IsDigit (decimal d (n / 10)) _ (decimal-IsDigit d (n / 10)) (omega arith)

-- Reading the digits back.
abbrev pub value_from : ℕ → Bytes → ℕ
value_from acc [] = acc
value_from acc (c ∷ cs) = value_from (acc * 10 + (c - b'0')) cs

value_from-append :
    (xs : Bytes) (acc c : ℕ) → value_from acc (xs ++ (c ∷ [])) ≡ value_from acc xs * 10 + (c - b'0')
value_from-append [] acc c = refl
value_from-append (x ∷ xs) acc c = value_from-append xs (acc * 10 + (x - b'0')) c

pub value_from-decimal : (d n : ℕ) → n < 10 ^ d → value_from 0 (decimal d n) ≡ n
unfolding decimal
value_from-decimal zero n h = omega arith
value_from-decimal (suc d) n h = omega (
  arith,
  value_from-append (decimal d (n / 10)) 0 (b'0' + n % 10),
  value_from-decimal d (n / 10) (omega (arith, pow-suc 10 d)),
)

drop-set : (xs : Bytes) (i v : ℕ) → i < length xs → drop i (set xs i v) ≡ v ∷ drop (suc i) xs
drop-set [] i v h = absurd (omega arith)
drop-set (x ∷ xs) zero v h = refl
drop-set (x ∷ xs) (suc i) v h = drop-set xs i v (omega arith)

-- The loop writes the digits of the code over the first positions.
format_loop-decimal :
    (d : ℕ) (dst : Bytes) (code : ℕ)
    → d ≤ length dst
    → format_loop d dst code ≡ decimal d code ++ drop d dst
unfolding format_loop decimal
format_loop-decimal zero dst code h = refl
format_loop-decimal (suc d) dst code h =
    let digit = (b'0' + code % 10) % 2 ^ 8 in
    format_loop-decimal d (set dst d digit) (code / 10) (omega (arith, length-set dst d digit))
    ∙ ap (λ (t : Bytes). decimal d (code / 10) ++ t)
        (drop-set dst d digit h ∙ ap (λ (c : ℕ). c ∷ drop (suc d) dst) (omega arith))
    ∙ sym (append_assoc (decimal d (code / 10)) ((b'0' + code % 10) ∷ []) (drop (suc d) dst))

-- Into a buffer with room for them `formatOTP` writes exactly the decimal digits of the code.
pub format_otp-decimal :
    (dst : Bytes) (code digits : ℕ)
    → digits ≤ length dst
    → format_otp dst code digits ≡ ok (decimal digits code)
unfolding format_otp
format_otp-decimal dst code digits h =
    rw (format_loop-decimal digits dst code h) (ground (arith, cut))
  where
    cut : take digits (decimal digits code ++ drop digits dst) ≡ decimal digits code
    cut =
        subst (λ n. take n (decimal digits code ++ drop digits dst) ≡ decimal digits code)
          (length-decimal digits code) (take-length-append (decimal digits code) (drop digits dst))

-- Two codes below 10 ^ d with one text are one code.
pub decimal-injective : (d m n : ℕ) → m < 10 ^ d → n < 10 ^ d → decimal d m ≡ decimal d n → m ≡ n
decimal-injective d m n hm hn e =
    sym (value_from-decimal d m hm) ∙ ap (value_from 0) e ∙ value_from-decimal d n hn
