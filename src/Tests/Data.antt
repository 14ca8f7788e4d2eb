-- ===== src/Tests/Data.antt =====
-- What the concrete runs share: byte strings checked by evaluation, and a keyed digest.
use genotp_go.Base.{
  ℕ, zero, suc, ◌+◌, ◌*◌, ◌%◌, ◌^◌, ◌<◌, Bool, true, ◌&&◌, ltb, [], ◌∷◌, length-replicate,
  replicate, Bytes, All, IsByte, ◌≡◌, ◌≢◌, not, ◌==◌, arith,
}
use genotp_go.Algorithm.{HashFn, Hmac, digest_size}

abbrev pub are_bytes : Bytes → Bool
are_bytes [] = true
are_bytes (b ∷ bs) = ltb b 256 && are_bytes bs

-- A byte string whose bytes are seen by evaluation.
pub checked : (bs : Bytes) → are_bytes bs ≡ true → All IsByte bs
checked [] e = tt
checked (b ∷ bs) e = (ground arith, checked bs (ground arith))

-- A digest of the size of the hash that repeats one byte, which key and message decide.
unfoldable pub mix : Bytes → ℕ
mix [] = 0
mix (b ∷ bs) = (31 * mix bs + b) % 2 ^ 8

mix-lt : (bs : Bytes) → mix bs < 256
unfolding mix
mix-lt [] = omega arith
mix-lt (b ∷ bs) = omega arith

pub replicate-IsByte : (n b : ℕ) → b < 256 → All IsByte (replicate n b)
replicate-IsByte zero b h = tt
replicate-IsByte (suc n) b h = (h, replicate-IsByte n b h)

abbrev pub mix_mac : HashFn → Bytes → Bytes → Bytes
mix_mac f key message = replicate (digest_size f) ((mix key + mix message) % 2 ^ 8)

abbrev pub mix_hmac : Hmac
mix_hmac = record {
  mac = mix_mac;
  size = λ f key message. length-replicate (digest_size f) ((mix key + mix message) % 2 ^ 8);
  bytes = λ f key message.
      replicate-IsByte (digest_size f) ((mix key + mix message) % 2 ^ 8) (omega arith);
}

-- A byte string without a byte, seen by evaluation.
abbrev pub avoids : ℕ → Bytes → Bool
avoids c [] = true
avoids c (b ∷ bs) = not (b == c) && avoids c bs

pub avoided : (c : ℕ) (bs : Bytes) → avoids c bs ≡ true → All (λ b. b ≢ c) bs
avoided c [] e = tt
avoided c (b ∷ bs) e = ((λ h. ground (arith, e, h)), avoided c bs (ground (arith, e)))
