-- ===== src/Context/Build.antt =====
-- Contexts built from fields: the order of the setters does not matter, and clean fields can be read
-- off from the bytes.
use genotp_go.Base.{
  first_separator, Bool, true, false, ◌&&◌, leb, if◌then◌else◌, List, [], ◌∷◌, ◌++◌, Bytes, All,
  length, Option, none, some, ◌≡◌, ◌≢◌, ◌↔◌, refl, sym, ap, ◌∙◌, arith, inl, inr, Bool-cases,
}
use mathlib.Core.Path.{subst}
use genotp_go.Base.Keys.{
  equal, equal_iff, IsDistinct, keys, lookup, insert, delete, keys-delete, keys_concat,
  remove_first, remove_first-IsDistinct, IsDistinct-concat, lookup-insert,
}
use genotp_go.Context.{
  OtpContextBuilder, Fields, sort_strings, field_of, write_fields, build, set_field,
}
use genotp_go.Context.Sorted.{
  has, has-sort_strings, sort_strings-IsSorted, sorted_unique, All-of, of_All,
}

-- Whether a key has a value.
abbrev is_some : Option Bytes → Bool
is_some none = false
is_some (some v) = true

has-keys : (k : Bytes) (f : Fields) → has k (keys f) ≡ is_some (lookup k f)
unfolding has lookup
has-keys k [] = refl
has-keys k ((j, v) ∷ f) = ground (arith, has-keys k f)

-- Fields with the same values, each key once.
abbrev pub Same : Fields → Fields → Type 0
Same f f' = (k : Bytes) → lookup k f ≡ lookup k f'

write_fields-Same :
    (ks : List Bytes) (f f' : Fields) → Same f f' → write_fields ks f ≡ write_fields ks f'
unfolding write_fields field_of
write_fields-Same [] f f' same = refl
write_fields-Same (k ∷ ks) f f' same =
    ap (λ v. k ++ (b'=' ∷ (elim v [ none ↦ [] | some x ↦ x ] ++ (0 ∷ write_fields ks f)))) (same k)
    ∙ ap (λ rest. k ++ (b'=' ∷ (elim (lookup k f') [ none ↦ [] | some x ↦ x ] ++ (0 ∷ rest))))
        (write_fields-Same ks f f' same)

sort_strings-Same :
    (f f' : Fields)
    → IsDistinct (keys f)
    → IsDistinct (keys f')
    → Same f f'
    → sort_strings (keys f) ≡ sort_strings (keys f')
sort_strings-Same f f' d d' same =
    sorted_unique (sort_strings (keys f)) (sort_strings (keys f'))
      (sort_strings-IsSorted (keys f) d) (sort_strings-IsSorted (keys f') d')
      (λ q.
        has-sort_strings q (keys f)
        ∙ has-keys q f
        ∙ ap is_some (same q)
        ∙ sym (has-keys q f')
        ∙ sym (has-sort_strings q (keys f')))

-- Each key once: what every setter keeps.
abbrev pub IsWell : OtpContextBuilder → Type 0
IsWell b = IsDistinct (keys b.fields)

insert-IsDistinct :
    (k v : Bytes) (f : Fields) → IsDistinct (keys f) → IsDistinct (keys (insert k v f))
unfolding insert
insert-IsDistinct k v f d =
    let (rest, gone) = remove_first-IsDistinct k (keys f) d in
    subst IsDistinct
      (ap (λ ks. ks ++ (k ∷ [])) (sym (keys-delete k f d)) ∙ sym (keys_concat k v (delete k f)))
      (IsDistinct-concat k (remove_first k (keys f)) rest gone)

pub set_field-IsWell : (b : OtpContextBuilder) (k v : Bytes) → IsWell b → IsWell (set_field b k v)
unfolding set_field
set_field-IsWell b k v d = ground (arith, d, insert-IsDistinct k v b.fields d)

pub build-Same :
    (b b' : OtpContextBuilder) → IsWell b → IsWell b' → Same b.fields b'.fields → build b ≡ build b'
unfolding build
build-Same b b' d d' same =
    ap (λ ks. record { bytes = write_fields ks b.fields })
      (sort_strings-Same b.fields b'.fields d d' same)
    ∙ ap (λ x. record { bytes = x })
        (write_fields-Same (sort_strings (keys b'.fields)) b.fields b'.fields same)

lookup-set_field :
    (b : OtpContextBuilder) (k v q : Bytes)
    → lookup q (set_field b k v).fields
      ≡ (if leb (length v) 256 && equal k q then some v else lookup q b.fields)
unfolding set_field
lookup-set_field b k v q = ground (arith, lookup-insert k q v b.fields)

-- Two fields with different keys are set in either order with the same context in the end, whatever
-- was set before and whether the values are short enough to be kept.
pub build-set_field :
    (b : OtpContextBuilder) (k v k' v' : Bytes)
    → IsWell b
    → k ≢ k'
    → build (set_field (set_field b k v) k' v') ≡ build (set_field (set_field b k' v') k v)
build-set_field b k v k' v' d ne =
    build-Same (set_field (set_field b k v) k' v') (set_field (set_field b k' v') k v)
      (set_field-IsWell (set_field b k v) k' v' (set_field-IsWell b k v d))
      (set_field-IsWell (set_field b k' v') k v (set_field-IsWell b k' v' d))
      (λ q. ground (
        arith,
        ne,
        lookup-set_field (set_field b k v) k' v' q,
        lookup-set_field b k v q,
        lookup-set_field (set_field b k' v') k v q,
        lookup-set_field b k' v' q,
        equal_iff k q,
        equal_iff k' q,
      ))

-- Fields whose keys have no '=' and whose values have no NUL byte.
abbrev pub IsClean : Fields → Type 0
IsClean f = (k v : Bytes) → lookup k f ≡ some v → All (λ b. b ≢ b'=') k × All (λ b. b ≢ 0) v

AreKeys : Fields → List Bytes → Type 0
AreKeys f ks = All (λ k. (v : Bytes) × (lookup k f ≡ some v)) ks

field_found : (f : Fields) (k v : Bytes) → lookup k f ≡ some v → field_of f k ≡ v
unfolding field_of
field_found f k v e = ap (λ o. elim o [ none ↦ [] | some x ↦ x ]) e

-- The same keys, with the same values.
AreSame : Fields → Fields → List Bytes → Type 0
AreSame f f' ks = All (λ k. lookup k f ≡ lookup k f') ks

empty_written : (k : Bytes) (x : Bytes) → [] ≢ k ++ (b'=' ∷ x)
empty_written [] x e = ground (arith, ap length e)
empty_written (b ∷ k) x e = ground (arith, ap length e)

written_entry :
    (f : Fields) (k v : Bytes) (ks : List Bytes)
    → lookup k f ≡ some v
    → write_fields (k ∷ ks) f ≡ k ++ (b'=' ∷ (v ++ (0 ∷ write_fields ks f)))
unfolding write_fields
written_entry f k v ks e =
    ap (λ x. k ++ (b'=' ∷ (x ++ (0 ∷ write_fields ks f)))) (field_found f k v e)

written_keys :
    (f f' : Fields) (ks ks' : List Bytes)
    → IsClean f
    → IsClean f'
    → AreKeys f ks
    → AreKeys f' ks'
    → write_fields ks f ≡ write_fields ks' f'
    → (ks ≡ ks') × AreSame f f' ks
unfolding AreKeys AreSame
written_keys f f' [] [] clean clean' known known' e = (refl, tt)
written_keys f f' [] (k ∷ ks') clean clean' known known' e =
    let (v, found) = known'.0 in
    absurd (empty_written k _ (empty_is f ∙ e ∙ written_entry f' k v ks' found))
  where
    empty_is : (f : Fields) → [] ≡ write_fields [] f
    empty_is f = unfold write_fields in refl
written_keys f f' (k ∷ ks) [] clean clean' known known' e =
    let (v, found) = known.0 in
    absurd (empty_written k _ (empty_is f' ∙ sym e ∙ written_entry f k v ks found))
  where
    empty_is : (f : Fields) → [] ≡ write_fields [] f
    empty_is f = unfold write_fields in refl
written_keys f f' (k ∷ ks) (k' ∷ ks') clean clean' known known' e =
    let (v, found) = known.0 in
    let (v', found') = known'.0 in
    let (key, rest) =
      first_separator b'=' k k' (v ++ (0 ∷ write_fields ks f)) (v' ++ (0 ∷ write_fields ks' f'))
        (clean k v found).0 (clean' k' v' found').0
        (sym (written_entry f k v ks found) ∙ e ∙ written_entry f' k' v' ks' found') in
    let (value, more) =
      first_separator 0 v v' (write_fields ks f) (write_fields ks' f') (clean k v found).1
        (clean' k' v' found').1 rest in
    let (keys_same, values_same) = written_keys f f' ks ks' clean clean' known.1 known'.1 more in
    (
      ap (λ x. x ∷ ks) key ∙ ap (◌∷◌ k') keys_same,
      (found ∙ ap some value ∙ sym found' ∙ ap (λ x. lookup x f') (sym key), values_same),
    )

-- An optional value that is there.
value_of : (o : Option Bytes) → is_some o ≡ true → (v : Bytes) × (o ≡ some v)
value_of none e = absurd (ground (arith, e))
value_of (some v) e = (v, refl)

no_value : (o : Option Bytes) → is_some o ≡ false → o ≡ none
no_value none e = refl
no_value (some v) e = absurd (ground (arith, e))

has_sorted : (f : Fields) (k : Bytes) → has k (sort_strings (keys f)) ≡ is_some (lookup k f)
has_sorted f k = has-sort_strings k (keys f) ∙ has-keys k f

sorted-AreKeys : (f : Fields) → AreKeys f (sort_strings (keys f))
unfolding AreKeys
sorted-AreKeys f =
    All-of (λ k. (v : Bytes) × (lookup k f ≡ some v)) (sort_strings (keys f))
      (λ k m. value_of (lookup k f) (sym (has_sorted f k) ∙ m))

Same-of_sorted :
    (f f' : Fields)
    → sort_strings (keys f) ≡ sort_strings (keys f')
    → AreSame f f' (sort_strings (keys f))
    → Same f f'
unfolding AreSame
Same-of_sorted f f' sorted same k = elim (Bool-cases (has k (sort_strings (keys f)))) [
  | inl m ↦ of_All (λ x. lookup x f ≡ lookup x f') (sort_strings (keys f)) same k m
  | inr n ↦
      no_value (lookup k f) (sym (has_sorted f k) ∙ n)
      ∙ sym (no_value (lookup k f') (sym (has_sorted f' k) ∙ ap (has k) (sym sorted) ∙ n))
]

-- Contexts that were built from fields whose keys have no '=' and whose values have no NUL byte are
-- equal exactly where every key has the same value, or none, in both builders.
pub build_iff :
    (b b' : OtpContextBuilder)
    → IsWell b
    → IsWell b'
    → IsClean b.fields
    → IsClean b'.fields
    → (build b ≡ build b') ↔ Same b.fields b'.fields
unfolding build
build_iff b b' d d' clean clean' = (
  (λ e.
      let (sorted, values) =
        written_keys b.fields b'.fields (sort_strings (keys b.fields))
          (sort_strings (keys b'.fields)) clean clean' (sorted-AreKeys b.fields)
          (sorted-AreKeys b'.fields) (ap (λ c. c.bytes) e) in
      Same-of_sorted b.fields b'.fields sorted values),
  build-Same b b' d d',
)

-- Clean entries make clean fields.
pub IsClean-entries :
    (f : Fields)
    → All (λ (e : Bytes × Bytes). All (λ b. b ≢ b'=') e.0 × All (λ b. b ≢ 0) e.1) f
    → IsClean f
IsClean-entries [] h k v e = absurd (unfold lookup in ground (arith, e))
IsClean-entries ((j, x) ∷ f) h k v e = elim (Bool-cases (equal j k)) [
  | inl t ↦
      let found : x ≡ v = unfold lookup in ground (arith, e, t) in
      (
        subst (λ y. All (λ b. b ≢ b'=') y) ((equal_iff j k).0 t) h.0.0,
        subst (λ y. All (λ b. b ≢ 0) y) found h.0.1,
      )
  | inr t ↦ IsClean-entries f h.1 k v (unfold lookup in ground (arith, e, t))
]
