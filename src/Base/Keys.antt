-- ===== src/Base/Keys.antt =====
-- Byte strings as keys: equality, lists without repetition, and Go maps from keys as association
-- lists in the order of their last insertion.
use Prim.Native.Nat.{◌≤◌}
use mathlib.Core.Path.{◌≡◌, refl, sym, ap, ◌∙◌, subst}
use mathlib.Core.Logic.{◌≢◌, ◌↔◌, inl, inr}
use mathlib.Core.Bool.{Bool, true, false, ◌&&◌}
use mathlib.Core.Option.{Option, none, some}
use mathlib.Core.List.{List, [], ◌∷◌, ◌++◌}
use native.Mathlib.Omega.{arith}
use genotp_go.Base.Lists.{length, Bytes, All}
use genotp_go.Base.Tests.{◌==◌, if◌then◌else◌, Bool-cases}

-- Go's == on strings.
unfoldable pub equal : Bytes → Bytes → Bool
equal [] [] = true
equal [] (y ∷ b) = false
equal (x ∷ a) [] = false
equal (x ∷ a) (y ∷ b) = (x == y) && equal a b

pub equal_iff : (a b : Bytes) → (equal a b ≡ true) ↔ (a ≡ b)
unfolding equal
equal_iff [] [] = ground arith
equal_iff [] (y ∷ b) = ground arith
equal_iff (x ∷ a) [] = ground arith
equal_iff (x ∷ a) (y ∷ b) = ground (arith, equal_iff a b)

pub equal_self : (a : Bytes) → equal a a ≡ true
equal_self a = (equal_iff a a).1 refl

pub equal_ne : (a b : Bytes) → a ≢ b → equal a b ≡ false
equal_ne a b h = elim (Bool-cases (equal a b)) [
  | inl t ↦ absurd (h ((equal_iff a b).0 t))
  | inr f ↦ f
]

abbrev pub IsAbsent : Bytes → List Bytes → Type 0
IsAbsent k ks = All (λ x. x ≢ k) ks

abbrev pub IsDistinct : List Bytes → Type 0
IsDistinct [] = Unit {0}
IsDistinct (k ∷ ks) = IsAbsent k ks × IsDistinct ks

module _ {V : Type 0} where
  abbrev pub keys : List (Bytes × V) → List Bytes
  keys [] = []
  keys ((k, v) ∷ m) = k ∷ keys m

  -- `m[k]`, with the `ok` of the two-value form.
  unfoldable pub lookup : Bytes → List (Bytes × V) → Option V
  lookup k [] = none
  lookup k ((j, v) ∷ m) = if equal j k then some v else lookup k m

  -- `delete(m, k)`
  unfoldable pub delete : Bytes → List (Bytes × V) → List (Bytes × V)
  delete k [] = []
  delete k ((j, v) ∷ m) = let rest = delete k m in if equal j k then rest else (j, v) ∷ rest

  -- `m[k] = v`
  unfoldable pub insert : Bytes → V → List (Bytes × V) → List (Bytes × V)
  insert k v m = delete k m ++ ((k, v) ∷ [])

  pub lookup-delete :
      (k q : Bytes) (m : List (Bytes × V))
      → lookup q (delete k m) ≡ (if equal k q then none else lookup q m)
  unfolding lookup delete
  lookup-delete k q [] = ground arith
  lookup-delete k q ((j, v) ∷ m) =
      ground (arith, equal_iff j k, equal_iff k q, equal_iff j q, lookup-delete k q m)

  pub lookup_concat :
      (k q : Bytes) (v : V) (m : List (Bytes × V))
      → lookup q (m ++ ((k, v) ∷ []))
        ≡ elim (lookup q m) [ some x ↦ some x | none ↦ if equal k q then some v else none ]
  unfolding lookup
  lookup_concat k q v [] = refl
  lookup_concat k q v ((j, x) ∷ m) = ground (arith, lookup_concat k q v m)

  pub lookup-insert :
      (k q : Bytes) (v : V) (m : List (Bytes × V))
      → lookup q (insert k v m) ≡ (if equal k q then some v else lookup q m)
  unfolding insert
  lookup-insert k q v m = lookup_concat k q v (delete k m) ∙ rw (lookup-delete k q m) (ground arith)

  pub delete_absent : (k : Bytes) (m : List (Bytes × V)) → IsAbsent k (keys m) → delete k m ≡ m
  unfolding delete
  delete_absent k [] h = refl
  delete_absent k ((j, v) ∷ m) h = rw (equal_ne j k h.0) (ap (◌∷◌ (j, v)) (delete_absent k m h.1))

  pub lookup_absent : (k : Bytes) (m : List (Bytes × V)) → IsAbsent k (keys m) → lookup k m ≡ none
  unfolding lookup
  lookup_absent k [] h = refl
  lookup_absent k ((j, v) ∷ m) h = rw (equal_ne j k h.0) (lookup_absent k m h.1)

  -- A concatenation of one more key.
  pub keys_concat :
      (k : Bytes) (v : V) (m : List (Bytes × V)) → keys (m ++ ((k, v) ∷ [])) ≡ keys m ++ (k ∷ [])
  keys_concat k v [] = refl
  keys_concat k v ((j, x) ∷ m) = ap (◌∷◌ j) (keys_concat k v m)

-- Deleting a key from a list without repetition, by its first occurrence.
unfoldable pub remove_first : Bytes → List Bytes → List Bytes
remove_first k [] = []
remove_first k (j ∷ ks) = let rest = remove_first k ks in if equal j k then ks else j ∷ rest

pub IsAbsent-remove_first :
    (q k : Bytes) (ks : List Bytes) → IsAbsent q ks → IsAbsent q (remove_first k ks)
unfolding remove_first
IsAbsent-remove_first q k [] h = tt
IsAbsent-remove_first q k (j ∷ ks) h = elim (Bool-cases (equal j k)) [
  | inl t ↦ rw t h.1
  | inr f ↦ rw f (h.0, IsAbsent-remove_first q k ks h.1)
]

pub remove_first-IsDistinct :
    (k : Bytes) (ks : List Bytes)
    → IsDistinct ks
    → IsDistinct (remove_first k ks) × IsAbsent k (remove_first k ks)
unfolding remove_first
remove_first-IsDistinct k [] d = (tt, tt)
remove_first-IsDistinct k (j ∷ ks) d = elim (Bool-cases (equal j k)) [
  | inl t ↦ rw t (d.1, subst (λ x. IsAbsent x ks) ((equal_iff j k).0 t) d.0)
  | inr f ↦
      let (rest, gone) = remove_first-IsDistinct k ks d.1 in
      rw f ((IsAbsent-remove_first j k ks d.0, rest), ((λ e. cc (f, (equal_iff j k).1 e)), gone))
]

pub IsAbsent-concat :
    (q k : Bytes) (ks : List Bytes) → IsAbsent q ks → k ≢ q → IsAbsent q (ks ++ (k ∷ []))
IsAbsent-concat q k [] h ne = (ne, tt)
IsAbsent-concat q k (j ∷ ks) h ne = (h.0, IsAbsent-concat q k ks h.1 ne)

pub IsDistinct-concat :
    (k : Bytes) (ks : List Bytes) → IsDistinct ks → IsAbsent k ks → IsDistinct (ks ++ (k ∷ []))
IsDistinct-concat k [] d a = (tt, tt)
IsDistinct-concat k (j ∷ ks) d a =
    (IsAbsent-concat j k ks d.0 (λ e. a.0 (sym e)), IsDistinct-concat k ks d.1 a.1)

module _ {V : Type 0} where
  pub length-delete : (k : Bytes) (m : List (Bytes × V)) → length (delete k m) ≤ length m
  unfolding delete
  length-delete k [] = omega arith
  length-delete k ((j, v) ∷ m) = ground (arith, length-delete k m)

  pub keys-delete :
      (k : Bytes) (m : List (Bytes × V))
      → IsDistinct (keys m)
      → keys (delete k m) ≡ remove_first k (keys m)
  unfolding delete remove_first
  keys-delete k [] d = refl
  keys-delete k ((j, v) ∷ m) d = elim (Bool-cases (equal j k)) [
    | inl t ↦
        rw t
          (ap keys (delete_absent k m (subst (λ x. IsAbsent x (keys m)) ((equal_iff j k).0 t) d.0)))
    | inr f ↦ rw f (ap (◌∷◌ j) (keys-delete k m d.1))
  ]
