-- ===== src/Context/Sorted.antt =====
-- The order of strings, and sorting: a list of different keys has one sorted order.
use genotp_go.Base.{
  Bool, true, false, ◌||◌, List, [], ◌∷◌, Bytes, All, ◌≡◌, ◌≢◌, refl, sym, ap, ◌∙◌, arith, inl, inr,
  Bool-cases,
}
use mathlib.Core.Path.{subst}
use genotp_go.Base.Keys.{equal, equal_iff, equal_self, IsAbsent, IsDistinct}
use genotp_go.Context.{before, insert_sorted, sort_strings}

before_irrefl : (a : Bytes) → before a a ≡ false
unfolding before
before_irrefl [] = refl
before_irrefl (x ∷ a) = ground (arith, before_irrefl a)

before_asym : (a b : Bytes) → before a b ≡ true → before b a ≡ false
unfolding before
before_asym [] [] h = refl
before_asym [] (y ∷ b) h = refl
before_asym (x ∷ a) [] h = ground (arith, h)
before_asym (x ∷ a) (y ∷ b) h = ground (arith, before_asym a b, h)

before_trans : (a b c : Bytes) → before a b ≡ true → before b c ≡ true → before a c ≡ true
unfolding before
before_trans [] [] c h k = ground (arith, h)
before_trans [] (y ∷ b) [] h k = ground (arith, k)
before_trans [] (y ∷ b) (z ∷ c) h k = refl
before_trans (x ∷ a) [] c h k = ground (arith, h)
before_trans (x ∷ a) (y ∷ b) [] h k = ground (arith, k)
before_trans (x ∷ a) (y ∷ b) (z ∷ c) h k = ground (arith, before_trans a b c, h, k)

before_total : (a b : Bytes) → before a b ≡ false → a ≢ b → before b a ≡ true
unfolding before
before_total [] [] h ne = absurd (ne refl)
before_total [] (y ∷ b) h ne = ground (arith, h)
before_total (x ∷ a) [] h ne = refl
before_total (x ∷ a) (y ∷ b) h ne = ground (arith, before_total a b, h, ne)

-- `k ∈ ks`
unfoldable pub has : Bytes → List Bytes → Bool
has q [] = false
has q (k ∷ ks) = equal k q || has q ks

abbrev pub IsSorted : List Bytes → Type 0
IsSorted [] = Unit {0}
IsSorted (k ∷ ks) = All (λ x. before k x ≡ true) ks × IsSorted ks

pub has-insert_sorted :
    (q k : Bytes) (ks : List Bytes) → has q (insert_sorted k ks) ≡ (equal k q || has q ks)
unfolding has insert_sorted
has-insert_sorted q k [] = refl
has-insert_sorted q k (j ∷ ks) = ground (arith, has-insert_sorted q k ks)

pub has-sort_strings : (q : Bytes) (ks : List Bytes) → has q (sort_strings ks) ≡ has q ks
unfolding has sort_strings
has-sort_strings q [] = refl
has-sort_strings q (k ∷ ks) =
    has-insert_sorted q k (sort_strings ks) ∙ ap (λ x. equal k q || x) (has-sort_strings q ks)

-- A property of every member, by membership.
pub All-of :
    (P : Bytes → Type 0) (ks : List Bytes) → ((x : Bytes) → has x ks ≡ true → P x) → All P ks
unfolding has
All-of P [] h = tt
All-of P (k ∷ ks) h = (h k (rw (equal_self k) refl), All-of P ks (λ x m. h x (ground (arith, m))))

pub of_All : (P : Bytes → Type 0) (ks : List Bytes) → All P ks → (x : Bytes) → has x ks ≡ true → P x
unfolding has
of_All P [] h x m = ground (arith, m)
of_All P (k ∷ ks) h x m = elim (Bool-cases (equal k x)) [
  | inl e ↦ subst P ((equal_iff k x).0 e) h.0
  | inr e ↦ of_All P ks h.1 x (ground (arith, e, m))
]

absent_of : (k : Bytes) (ks : List Bytes) → has k ks ≡ false → IsAbsent k ks
absent_of k ks h = All-of (λ x. x ≢ k) ks (λ x m e. cc (h, m, ap (λ y. has y ks) e))

of_absent : (k : Bytes) (ks : List Bytes) → IsAbsent k ks → has k ks ≡ false
of_absent k ks h = elim (Bool-cases (has k ks)) [
  | inl m ↦ absurd (of_All (λ x. x ≢ k) ks h k m refl)
  | inr f ↦ f
]

insert_sorted-IsSorted :
    (k : Bytes) (ks : List Bytes) → has k ks ≡ false → IsSorted ks → IsSorted (insert_sorted k ks)
unfolding insert_sorted has
insert_sorted-IsSorted k [] absent sorted = (tt, tt)
insert_sorted-IsSorted k (j ∷ ks) absent sorted = elim (Bool-cases (before j k)) [
  | inl first ↦ rw first (
    All-of (λ x. before j x ≡ true) (insert_sorted k ks)
        (λ x m. elim (Bool-cases (equal k x)) [
          | inl e ↦ subst (λ y. before j y ≡ true) ((equal_iff k x).0 e) first
          | inr e ↦
              of_All (λ y. before j y ≡ true) ks sorted.0 x
                (ground (arith, e, m, has-insert_sorted x k ks))
        ]),
    insert_sorted-IsSorted k ks (ground (arith, absent)) sorted.1,
  )
  | inr last ↦
      let differs : j ≢ k = (λ e. cc (absent, (equal_iff j k).1 e)) in
      let front : before k j ≡ true = before_total j k last differs in
      rw last (
        (
          front,
          All-of (λ x. before k x ≡ true) ks
              (λ x m. before_trans k j x front (of_All (λ y. before j y ≡ true) ks sorted.0 x m)),
        ),
        sorted,
      )
]

pub sort_strings-IsSorted : (ks : List Bytes) → IsDistinct ks → IsSorted (sort_strings ks)
unfolding sort_strings
sort_strings-IsSorted [] d = tt
sort_strings-IsSorted (k ∷ ks) d =
    insert_sorted-IsSorted k (sort_strings ks) (has-sort_strings k ks ∙ of_absent k ks d.0)
      (sort_strings-IsSorted ks d.1)

-- The first of a sorted list is not in what follows.
first_absent : (k : Bytes) (ks : List Bytes) → All (λ x. before k x ≡ true) ks → has k ks ≡ false
first_absent k ks h = elim (Bool-cases (has k ks)) [
  | inl m ↦
      absurd (distinct_answers (sym (of_All (λ x. before k x ≡ true) ks h k m) ∙ before_irrefl k))
  | inr f ↦ f
]
  where
    distinct_answers : true ≢ false
    distinct_answers e = ground (arith, e)

has_first : (k : Bytes) (ks : List Bytes) → has k (k ∷ ks) ≡ true
unfolding has
has_first k ks = rw (equal_self k) refl

-- Two first members of the same members are the same.
same_first :
    (x y : Bytes) (xs ys : List Bytes)
    → IsSorted (x ∷ xs)
    → IsSorted (y ∷ ys)
    → ((q : Bytes) → has q (x ∷ xs) ≡ has q (y ∷ ys))
    → x ≡ y
same_first x y xs ys sx sy same = elim (Bool-cases (equal y x)) [
  | inl e ↦ sym ((equal_iff y x).0 e)
  | inr differs ↦
      let in_ys : has x ys ≡ true = unfold has in ground (arith, differs, same x, has_first x xs) in
      let in_xs : has y xs ≡ true =
        unfold has in
        ground (arith, differs, same y, has_first y ys, equal_iff x y, equal_iff y x) in
      let y_first = of_All (λ z. before y z ≡ true) ys sy.0 x in_ys in
      let x_first = of_All (λ z. before x z ≡ true) xs sx.0 y in_xs in
      absurd (ground (arith, x_first, before_asym y x y_first))
]

same_rest :
    (x : Bytes) (xs ys : List Bytes)
    → IsSorted (x ∷ xs)
    → IsSorted (x ∷ ys)
    → ((q : Bytes) → has q (x ∷ xs) ≡ has q (x ∷ ys))
    → (q : Bytes) → has q xs ≡ has q ys
same_rest x xs ys sx sy same q = elim (Bool-cases (equal x q)) [
  | inl e ↦
      subst (λ z. has z xs ≡ has z ys) ((equal_iff x q).0 e)
        (first_absent x xs sx.0 ∙ sym (first_absent x ys sy.0))
  | inr e ↦ unfold has in ground (arith, e, same q)
]

-- A sorted list is determined by its members.
pub sorted_unique :
    (xs ys : List Bytes) → IsSorted xs → IsSorted ys → ((q : Bytes) → has q xs ≡ has q ys) → xs ≡ ys
sorted_unique [] [] sx sy same = refl
sorted_unique [] (y ∷ ys) sx sy same = absurd (unfold has in ground (arith, same y, has_first y ys))
sorted_unique (x ∷ xs) [] sx sy same = absurd (unfold has in ground (arith, same x, has_first x xs))
sorted_unique (x ∷ xs) (y ∷ ys) sx sy same =
    let e = same_first x y xs ys sx sy same in
    let sx' = subst (λ z. IsSorted (z ∷ xs)) e sx in
    ap (λ z. z ∷ xs) e
    ∙ ap (◌∷◌ y) (
        sorted_unique xs ys sx'.1 sy.1
          (same_rest y xs ys sx' sy (λ q. ap (λ z. has q (z ∷ xs)) (sym e) ∙ same q)))
