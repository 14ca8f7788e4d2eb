-- ===== src/Text.antt =====
-- What the library uses of Go's strings: ranging over a string and writing runes, as the language
-- defines them, and functions of the package strings. No code of the repository stands here.
pub mod Trim
use genotp_go.Base.{
  ℕ, zero, suc, ◌+◌, ◌-◌, ◌*◌, ◌/◌, ◌%◌, Bool, true, false, not, ◌&&◌, ◌||◌, ltb, leb, ◌==◌,
  if◌then◌else◌, List, [], ◌∷◌, ◌++◌, length, take, get_or, Bytes, Option, none, some,
}

-- A rune and the bytes it was read from.
abbrev pub Chunk : Type 0
Chunk = ℕ × Bytes

abbrev pub rune_error : ℕ
rune_error = 0xfffd

abbrev pub between : ℕ → ℕ → ℕ → Bool
between lo hi b = leb lo b && leb b hi

-- A byte that goes on a sequence.
abbrev pub continues : ℕ → Bool
continues b = between 0x80 0xbf b

-- The second byte that may follow the first one.
unfoldable pub second_ok : ℕ → ℕ → Bool
second_ok b0 b1 =
    if b0 == 0xe0
    then between 0xa0 0xbf b1
    else if b0 == 0xed
    then between 0x80 0x9f b1
    else if b0 == 0xf0
    then between 0x90 0xbf b1
    else if b0 == 0xf4
    then between 0x80 0x8f b1
    else continues b1

-- The length that a first byte announces; 0 for a byte that begins no rune.
unfoldable pub announced : ℕ → ℕ
announced b0 =
    if ltb b0 0x80
    then 1
    else if between 0xc2 0xdf b0
    then 2
    else if between 0xe0 0xef b0
    then 3
    else if between 0xf0 0xf4 b0
    then 4
    else 0

-- The rune that begins with `b0` and goes on with `rest`, and its length: U+FFFD of length 1 for
-- anything else than UTF-8.
unfoldable pub decode_rune : ℕ → Bytes → ℕ × ℕ
decode_rune b0 rest =
    let n = announced b0 in
    let b1 = get_or rest 0 0 in
    let b2 = get_or rest 1 0 in
    let b3 = get_or rest 2 0 in
    if n == 1
    then (b0, 1)
    else if n == 0 || ltb (length rest + 1) n || not (second_ok b0 b1)
    then (rune_error, 1)
    else if n == 2
    then (b0 % 32 * 64 + b1 % 64, 2)
    else if not (continues b2)
    then (rune_error, 1)
    else if n == 3
    then (b0 % 16 * 4096 + b1 % 64 * 64 + b2 % 64, 3)
    else if not (continues b3)
    then (rune_error, 1)
    else (b0 % 8 * 262144 + b1 % 64 * 4096 + b2 % 64 * 64 + b3 % 64, 4)

-- The runes of a string, of which `skip` bytes belong to the last one.
unfoldable pub runes_after : ℕ → Bytes → List Chunk
runes_after skip [] = []
runes_after (suc skip) (b ∷ rest) = runes_after skip rest
runes_after zero (b ∷ rest) =
    let (rune, size) = decode_rune b rest in
    (rune, b ∷ take (size - 1) rest) ∷ runes_after (size - 1) rest

-- `for _, c := range s`
unfoldable pub runes : Bytes → List Chunk
runes s = runes_after 0 s

-- `WriteRune`, for a rune that ranging over a string gave.
unfoldable pub encode_rune : ℕ → Bytes
encode_rune c =
    if ltb c 0x80
    then c ∷ []
    else if ltb c 0x800
    then (0xc0 + c / 64) ∷ (0x80 + c % 64) ∷ []
    else if ltb c 0x10000
    then (0xe0 + c / 4096) ∷ (0x80 + c / 64 % 64) ∷ (0x80 + c % 64) ∷ []
    else (0xf0 + c / 262144) ∷ (0x80 + c / 4096 % 64) ∷ (0x80 + c / 64 % 64) ∷ (0x80 + c % 64) ∷ []

-- unicode.IsSpace
unfoldable pub is_space : ℕ → Bool
is_space c =
    between 9 13 c
    || c == 0x20
    || c == 0x85
    || c == 0xa0
    || c == 0x1680
    || between 0x2000 0x200a c
    || c == 0x2028
    || c == 0x2029
    || c == 0x202f
    || c == 0x205f
    || c == 0x3000

unfoldable pub drop_spaces : List Chunk → List Chunk
drop_spaces [] = []
drop_spaces (c ∷ cs) = let rest = drop_spaces cs in if is_space c.0 then rest else c ∷ cs

-- Without the spaces at the end.
unfoldable pub drop_last_spaces : List Chunk → List Chunk
drop_last_spaces [] = []
drop_last_spaces (c ∷ cs) = elim (drop_last_spaces cs) [
  | [] ↦ if is_space c.0 then [] else c ∷ []
  | d ∷ ds ↦ c ∷ d ∷ ds
]

unfoldable pub bytes_of : List Chunk → Bytes
bytes_of [] = []
bytes_of (c ∷ cs) = c.1 ++ bytes_of cs

-- strings.TrimSpace
unfoldable pub trim_space : Bytes → Bytes
trim_space s = bytes_of (drop_last_spaces (drop_spaces (runes s)))

-- strings.ToLower, for the mapping unicode.ToLower of runes.
unfoldable pub map_runes : (ℕ → ℕ) → List Chunk → Bytes
map_runes f [] = []
map_runes f (c ∷ cs) = encode_rune (f c.0) ++ map_runes f cs

unfoldable pub to_lower : (ℕ → ℕ) → Bytes → Bytes
to_lower lower s = map_runes lower (runes s)

-- strings.HasPrefix
unfoldable pub has_prefix : Bytes → Bytes → Bool
has_prefix s [] = true
has_prefix [] (p ∷ prefix) = false
has_prefix (b ∷ s) (p ∷ prefix) = (b == p) && has_prefix s prefix

-- strings.IndexByte, `none` for -1.
unfoldable pub index_byte : Bytes → ℕ → Option ℕ
index_byte [] c = none
index_byte (b ∷ s) c =
    let rest : Option ℕ = elim (index_byte s c) [ none ↦ none | some i ↦ some (suc i) ] in
    if b == c then some 0 else rest

-- strings.Index, `none` for -1.
unfoldable pub index_of : Bytes → Bytes → Option ℕ
index_of [] sub = if has_prefix [] sub then some 0 else none
index_of (b ∷ s) sub =
    let rest : Option ℕ = elim (index_of s sub) [ none ↦ none | some i ↦ some (suc i) ] in
    if has_prefix (b ∷ s) sub then some 0 else rest

-- strings.TrimSuffix with a suffix of one byte.
unfoldable pub trim_suffix_byte : Bytes → ℕ → Bytes
trim_suffix_byte [] c = []
trim_suffix_byte (b ∷ s) c = elim s [
  | [] ↦ if b == c then [] else b ∷ []
  | x ∷ xs ↦ b ∷ trim_suffix_byte s c
]
