-- ===== src/Text/Trim.antt =====
-- TrimSpace leaves graphic ASCII text alone.
use genotp_go.Base.{
  ℕ, ◌-◌, ◌≤◌, ◌<◌, Bool, true, false, ◌&&◌, leb, ltb, [], ◌∷◌, take, map, All, Bytes, ◌≡◌, refl,
  ap, ◌∙◌, arith,
}
use genotp_go.Text.{
  Chunk, decode_rune, announced, runes_after, runes, is_space, drop_spaces, drop_last_spaces,
  bytes_of, trim_space,
}

-- An ASCII character other than a space.
abbrev pub IsGraphic : ℕ → Type 0
IsGraphic b = (33 ≤ b) × (b < 127)

abbrev single : ℕ → Chunk
single b = (b, b ∷ [])

decode_ascii : (b : ℕ) (rest : Bytes) → IsGraphic b → decode_rune b rest ≡ (b, 1)
unfolding decode_rune announced
decode_ascii b rest h = ground (arith, h)

runes_graphic : (s : Bytes) → All IsGraphic s → runes_after 0 s ≡ map single s
unfolding runes_after
runes_graphic [] h = refl
runes_graphic (b ∷ s) h =
    ap (λ (r : ℕ × ℕ). (r.0, b ∷ take (r.1 - 1) s) ∷ runes_after (r.1 - 1) s) (decode_ascii b s h.0)
    ∙ ap (◌∷◌ (single b)) (runes_graphic s h.1)

not_space : (b : ℕ) → IsGraphic b → is_space b ≡ false
unfolding is_space
not_space b h = ground (arith, h)

drop_graphic : (s : Bytes) → All IsGraphic s → drop_spaces (map single s) ≡ map single s
unfolding drop_spaces
drop_graphic [] h = refl
drop_graphic (b ∷ s) h = rw (not_space b h.0) refl

drop_last_graphic : (s : Bytes) → All IsGraphic s → drop_last_spaces (map single s) ≡ map single s
unfolding drop_last_spaces
drop_last_graphic [] h = refl
drop_last_graphic (b ∷ []) h = rw (not_space b h.0) refl
drop_last_graphic (b ∷ c ∷ s) h = rw (drop_last_graphic (c ∷ s) h.1) refl

bytes_of-single : (s : Bytes) → bytes_of (map single s) ≡ s
unfolding bytes_of
bytes_of-single [] = refl
bytes_of-single (b ∷ s) = ap (◌∷◌ b) (bytes_of-single s)

pub trim_graphic : (s : Bytes) → All IsGraphic s → trim_space s ≡ s
unfolding trim_space runes
trim_graphic s h =
    ap (λ r. bytes_of (drop_last_spaces (drop_spaces r))) (runes_graphic s h)
    ∙ ap (λ r. bytes_of (drop_last_spaces r)) (drop_graphic s h)
    ∙ ap bytes_of (drop_last_graphic s h)
    ∙ bytes_of-single s

-- Graphic characters, seen by evaluation.
abbrev pub are_graphic : Bytes → Bool
are_graphic [] = true
are_graphic (b ∷ s) = leb 33 b && (ltb b 127 && are_graphic s)

pub All-are_graphic : (s : Bytes) → are_graphic s ≡ true → All IsGraphic s
All-are_graphic [] e = tt
All-are_graphic (b ∷ s) e =
    ((ground (arith, e), ground (arith, e)), All-are_graphic s (ground (arith, e)))
