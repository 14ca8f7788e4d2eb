-- ===== src/Skew/Samples.antt =====
-- Lists of samples: an element replaced in a list that is read from the middle on, and the number of
-- the samples that are not 0.
use genotp_go.Base.{
  ℕ, zero, suc, ◌+◌, ◌-◌, ◌≤◌, ◌<◌, if◌then◌else◌, List, [], ◌∷◌, ◌++◌, length, length-append,
  get_elem?, get_or, set, take, drop, some, ◌≡◌, refl, sym, ap, ◌∙◌, arith,
}
use genotp_go.Base.Int.{ℤ, pos, is_zero, ◌+ℤ◌, ◌-ℤ◌}
use genotp_go.Skew.{count_in, count_out}
use mathlib.Core.List.{append-nil, append_assoc}

unfoldable pub non_zeros : List ℤ → ℕ
non_zeros [] = 0
non_zeros (v ∷ vs) = let rest = non_zeros vs in if is_zero v then rest else suc rest

pub drop-set : (b : List ℤ) (w : ℕ) (v : ℤ) → drop (suc w) (set b w v) ≡ drop (suc w) b
drop-set [] w v = refl
drop-set (x ∷ b) zero v = refl
drop-set (x ∷ b) (suc w) v = drop-set b w v

pub take-set :
    (b : List ℤ) (w : ℕ) (v : ℤ) → w < length b → take (suc w) (set b w v) ≡ take w b ++ (v ∷ [])
take-set [] w v h = absurd (omega arith)
take-set (x ∷ b) zero v h = refl
take-set (x ∷ b) (suc w) v h = ap (◌∷◌ x) (take-set b w v (omega arith))

pub drop-drop :
    (b ys : List ℤ) (w : ℕ) → w < length b → drop 1 (drop w b ++ ys) ≡ drop (suc w) b ++ ys
drop-drop [] ys w h = absurd (omega arith)
drop-drop (x ∷ b) ys zero h = refl
drop-drop (x ∷ b) ys (suc w) h = drop-drop b ys w (omega arith)

pub take_all : (b : List ℤ) (n : ℕ) → length b ≤ n → take n b ≡ b
take_all [] zero h = refl
take_all [] (suc n) h = refl
take_all (x ∷ b) zero h = absurd (omega arith)
take_all (x ∷ b) (suc n) h = ap (◌∷◌ x) (take_all b n (omega arith))

pub drop_all : (b : List ℤ) (n : ℕ) → length b ≤ n → drop n b ≡ []
drop_all [] zero h = refl
drop_all [] (suc n) h = refl
drop_all (x ∷ b) zero h = absurd (omega arith)
drop_all (x ∷ b) (suc n) h = drop_all b n (omega arith)

pub length-rotated : (b : List ℤ) (w : ℕ) → length (drop w b ++ take w b) ≡ length b
length-rotated b zero = ap length (append-nil b)
length-rotated [] (suc w) = refl
length-rotated (x ∷ b) (suc w) = omega (
  arith,
  length-append (drop w b) (take w b),
  length-append (drop w b) (x ∷ take w b),
  length-rotated b w,
)

-- A replaced sample, seen from the oldest one on.
pub rotated-set :
    (b : List ℤ) (w : ℕ) (v : ℤ)
    → w < length b
    → drop (suc w) (set b w v) ++ take (suc w) (set b w v)
      ≡ drop 1 ((drop w b ++ take w b) ++ (v ∷ []))
rotated-set b w v h =
    ap (◌++ (take (suc w) (set b w v))) (drop-set b w v)
    ∙ ap (◌++◌ (drop (suc w) b)) (take-set b w v h)
    ∙ sym (drop-drop b (take w b ++ (v ∷ [])) w h)
    ∙ ap (drop 1) (sym (append_assoc (drop w b) (take w b) (v ∷ [])))

pub get_elem?-some : (b : List ℤ) (w : ℕ) → w < length b → get_elem? b w ≡ some (get_or b w (pos 0))
get_elem?-some [] w h = absurd (omega arith)
get_elem?-some (x ∷ b) zero h = refl
get_elem?-some (x ∷ b) (suc w) h = get_elem?-some b w (omega arith)

-- The count of the samples that are not 0.
unfoldable pub unit : ℤ → ℕ
unit v = if is_zero v then 0 else 1

pub non_zeros-append : (b : List ℤ) (v : ℤ) → non_zeros (b ++ (v ∷ [])) ≡ non_zeros b + unit v
unfolding non_zeros unit
non_zeros-append [] v = ground arith
non_zeros-append (x ∷ b) v = ground (arith, non_zeros-append b v)

pub non_zeros-set :
    (b : List ℤ) (w : ℕ) (v : ℤ)
    → w < length b
    → non_zeros (set b w v) + unit (get_or b w (pos 0)) ≡ non_zeros b + unit v
unfolding non_zeros unit
non_zeros-set [] w v h = absurd (omega arith)
non_zeros-set (x ∷ b) zero v h = ground arith
non_zeros-set (x ∷ b) (suc w) v h = ground (arith, non_zeros-set b w v (omega arith))

pub count_in-unit : (v : ℤ) (n : ℕ) → count_in v (pos n) ≡ pos (n + unit v)
unfolding unit ◌+ℤ◌
count_in-unit v n = ground arith

pub count_out-unit : (v : ℤ) (n : ℕ) → unit v ≤ n → count_out v (pos n) ≡ pos (n - unit v)
unfolding unit ◌-ℤ◌
count_out-unit v n h = ground (arith, h)

pub unit_zero : unit (pos 0) ≡ 0
unfolding unit
unit_zero = refl

pub unit-le : (b : List ℤ) (w : ℕ) → w < length b → unit (get_or b w (pos 0)) ≤ non_zeros b
unit-le b w h = omega (arith, non_zeros-set b w (pos 0) h, unit_zero)
