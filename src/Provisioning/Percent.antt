-- ===== src/Provisioning/Percent.antt =====
-- Percent encoding: it can be undone, and what it writes has no meaning in a URI.
use genotp_go.Base.{
  ℕ, ◌+◌, ◌-◌, ◌*◌, ◌/◌, ◌%◌, ◌<◌, Bool, true, false, ◌&&◌, ◌||◌, leb, ◌==◌, all_below,
  all_below_at, if◌then◌else◌, [], ◌∷◌, get_or, Bytes, All, IsByte, ◌≡◌, ◌≢◌, refl, ap, ◌∙◌, arith,
  inl, inr, Bool-cases,
}
use genotp_go.Base.Bits.{bit_and_0x0f}
use genotp_go.Provisioning.{should_not_encode, hex_upper, percent_encode}

-- RFC 3986: a percent sign and two hexadecimal digits stand for a byte, all else for itself.
abbrev hex_value : ℕ → ℕ
hex_value c = if leb c b'9' then c - b'0' else c - b'A' + 10

unfoldable pub percent_decode : Bytes → Bytes
percent_decode [] = []
percent_decode (b ∷ []) = b ∷ []
percent_decode (b ∷ c ∷ []) = b ∷ c ∷ []
percent_decode (b ∷ h ∷ l ∷ s) =
    let decoded = percent_decode s in
    let kept = percent_decode (h ∷ l ∷ s) in
    if b == b'%' then (hex_value h * 16 + hex_value l) ∷ decoded else b ∷ kept

-- Unreserved characters, and the percent sign.
unfoldable pub is_clean : ℕ → Bool
is_clean b = should_not_encode b || b == b'%'

hex_table :
    all_below 16
      (λ x. hex_value (get_or hex_upper x 0) == x && should_not_encode (get_or hex_upper x 0))
    ≡ true
unfolding all_below should_not_encode
hex_table = refl

hex_digit :
    (x : ℕ)
    → x < 16
    → (hex_value (get_or hex_upper x 0) ≡ x) × (should_not_encode (get_or hex_upper x 0) ≡ true)
hex_digit x h =
    let t =
      all_below_at 16
        (λ x. hex_value (get_or hex_upper x 0) == x && should_not_encode (get_or hex_upper x 0)) x h
        hex_table in
    go (hex_value (get_or hex_upper x 0)) (should_not_encode (get_or hex_upper x 0)) t
  where
    go : (v : ℕ) (u : Bool) → (v == x && u) ≡ true → (v ≡ x) × (u ≡ true)
    go v u t = ground arith

unreserved_ne : (b : ℕ) → should_not_encode b ≡ true → b ≢ b'%'
unfolding should_not_encode
unreserved_ne b h e = ground (arith, h, e)

decode_unreserved : (b : ℕ) (s : Bytes) → b ≢ b'%' → percent_decode (b ∷ s) ≡ b ∷ percent_decode s
unfolding percent_decode
decode_unreserved b [] h = refl
decode_unreserved b (c ∷ []) h = refl
decode_unreserved b (c ∷ d ∷ s) h = ground arith

clean_of : (b : ℕ) → should_not_encode b ≡ true → is_clean b ≡ true
unfolding is_clean
clean_of b h = ground (arith, h)

clean_percent : is_clean b'%' ≡ true
unfolding is_clean should_not_encode
clean_percent = refl

pub encode_plain :
    (b : ℕ) (s : Bytes) → should_not_encode b ≡ true → percent_encode (b ∷ s) ≡ b ∷ percent_encode s
unfolding percent_encode
encode_plain b s h = rw h refl

pub encode_coded :
    (b : ℕ) (s : Bytes)
    → should_not_encode b ≡ false
    → percent_encode (b ∷ s)
      ≡ b'%' ∷ get_or hex_upper (b / 16) 0 ∷ get_or hex_upper (b % 16) 0 ∷ percent_encode s
unfolding percent_encode
encode_coded b s h = rw (h, bit_and_0x0f b) refl

decode_coded :
    (x y : ℕ) (s : Bytes)
    → x < 16
    → y < 16
    → percent_decode (b'%' ∷ get_or hex_upper x 0 ∷ get_or hex_upper y 0 ∷ s)
      ≡ (x * 16 + y) ∷ percent_decode s
unfolding percent_decode
decode_coded x y s hx hy =
    ap (λ (v : ℕ). v ∷ percent_decode s) (same (hex_digit x hx).0 (hex_digit y hy).0)
  where
    same : {v w : ℕ} → v ≡ x → w ≡ y → v * 16 + w ≡ x * 16 + y
    same p q = omega arith

-- Decoding what `percentEncode` wrote gives the bytes back, so that no two strings are written
-- alike.
pub percent_decode-percent_encode :
    (s : Bytes) → All IsByte s → percent_decode (percent_encode s) ≡ s
percent_decode-percent_encode [] h = unfold percent_decode percent_encode in refl
percent_decode-percent_encode (b ∷ s) h = elim (Bool-cases (should_not_encode b)) [
  | inl plain ↦
      ap percent_decode (encode_plain b s plain)
      ∙ decode_unreserved b (percent_encode s) (unreserved_ne b plain)
      ∙ ap (◌∷◌ b) (percent_decode-percent_encode s h.1)
  | inr coded ↦
      ap percent_decode (encode_coded b s coded)
      ∙ decode_coded (b / 16) (b % 16) (percent_encode s) (omega arith) (omega arith)
      ∙ ap (λ (x : ℕ). x ∷ percent_decode (percent_encode s)) (omega arith)
      ∙ ap (◌∷◌ b) (percent_decode-percent_encode s h.1)
]

-- What `percentEncode` writes consists of unreserved characters and percent signs, so that it holds
-- no delimiter of a URI.
pub percent_encode-is_clean :
    (s : Bytes) → All IsByte s → All (λ b. is_clean b ≡ true) (percent_encode s)
percent_encode-is_clean [] h = unfold percent_encode in tt
percent_encode-is_clean (b ∷ s) h = elim (Bool-cases (should_not_encode b)) [
  | inl plain ↦ rw (encode_plain b s plain) (clean_of b plain, percent_encode-is_clean s h.1)
  | inr coded ↦ rw (encode_coded b s coded) (
    clean_percent,
    (
      clean_of _ (hex_digit (b / 16) (omega arith)).1,
      (clean_of _ (hex_digit (b % 16) (omega arith)).1, percent_encode-is_clean s h.1),
    ),
  )
]
