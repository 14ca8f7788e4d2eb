-- ===== src/Base32.antt =====
-- base32.go: unpadded RFC 4648 Base32. The pooled scratch buffer is the list `kept` returns: its
-- contents never outlive a call.
pub mod Stream
pub mod Decode
pub mod RoundTrip
use genotp_go.Base.{
  ℕ, zero, suc, ◌+◌, ◌-◌, ◌*◌, ◌/◌, ◌%◌, ◌^◌, bit_and, bit_or, Bool, true, false, ◌||◌, ltb, leb,
  ◌==◌, if◌then◌else◌, List, [], ◌∷◌, ◌++◌, length, get_or, set, replicate, Bytes,
}
use genotp_go.Base.Int.{ℤ, pos, negsuc}
use genotp_go.Errors.{Result, ok, err, invalid_secret, dst_too_small}

-- -1 in the table.
abbrev none32 : ℤ
none32 = negsuc 0

-- 0, 1, …, 25, that is 'A' to 'Z' and once more 'a' to 'z'.
abbrev letters : List ℤ → List ℤ
letters rest =
    pos 0
    ∷ pos 1
    ∷ pos 2
    ∷ pos 3
    ∷ pos 4
    ∷ pos 5
    ∷ pos 6
    ∷ pos 7
    ∷ pos 8
    ∷ pos 9
    ∷ pos 10
    ∷ pos 11
    ∷ pos 12
    ∷ pos 13
    ∷ pos 14
    ∷ pos 15
    ∷ pos 16
    ∷ pos 17
    ∷ pos 18
    ∷ pos 19
    ∷ pos 20
    ∷ pos 21
    ∷ pos 22
    ∷ pos 23
    ∷ pos 24
    ∷ pos 25
    ∷ rest

-- The array literal writes 128 of the 256 elements; Go sets the others to 0.
unfoldable pub b32_table : List ℤ
b32_table =
    replicate 50 none32
    ++ (pos 26 ∷ pos 27 ∷ pos 28 ∷ pos 29 ∷ pos 30 ∷ pos 31 ∷ replicate 9 none32)
    ++ letters (replicate 6 none32)
    ++ letters (replicate 5 none32)
    ++ replicate 128 (pos 0)

-- `b32Inverse[c]`, for a byte `c`.
unfoldable pub b32_inverse : ℕ → ℤ
b32_inverse c = get_or b32_table c (pos 0)

-- The characters that the first loop drops.
unfoldable pub is_skipped : ℕ → Bool
is_skipped c =
    c == b' ' || c == b'-' || c == b'=' || c == 9 || c == 10 || c == 13 || c == 11 || c == 12

unfoldable pub kept : Bytes → Bytes
kept [] = []
kept (c ∷ src) = let rest = kept src in if is_skipped c then rest else c ∷ rest

-- `buffer = (buffer << 5) | uint64(val)`
abbrev pub push5 : ℕ → ℕ → ℕ
push5 buffer val = bit_or (buffer * 2 ^ 5 % 2 ^ 64) val

-- `byte((buffer >> bitsLeft) & 0xff)`
abbrev pub top_byte : ℕ → ℕ → ℕ
top_byte buffer bits = bit_and (buffer / 2 ^ bits) 0xff % 2 ^ 8

-- The second loop over what is left of `buf`; `dst` as it is written so far, also on an error.
unfoldable pub decode_loop : Bytes → Bytes → ℕ → ℕ → ℕ → Bytes × Result ℕ
decode_loop [] dst dst_idx buffer bits = (dst, ok dst_idx)
decode_loop (c ∷ buf) dst dst_idx buffer bits = elim (b32_inverse c) [
  | negsuc _ ↦ (dst, err invalid_secret)
  | pos val ↦ elim (leb 8 (bits + 5)) [
    | false ↦ decode_loop buf dst dst_idx (push5 buffer val) (bits + 5)
    | true ↦ elim (leb (length dst) dst_idx) [
      | true ↦ (dst, err dst_too_small)
      | false ↦
          decode_loop buf (set dst dst_idx (top_byte (push5 buffer val) (bits + 5 - 8)))
            (dst_idx + 1) (push5 buffer val) (bits + 5 - 8)
    ]
  ]
]

unfoldable pub decode_base32 : Bytes → Bytes → Bytes × Result ℕ
decode_base32 dst src =
    if length (kept src) == 0 then (dst, ok 0) else decode_loop (kept src) dst 0 0 0

-- The standard library's alphabet, and its unpadded encoding: five bits a character, the highest
-- first, the last group filled up with zero bits. `acc` holds the `bits` bits not yet written.
unfoldable pub b32_char : ℕ → ℕ
b32_char v = if ltb v 26 then b'A' + v else b'2' + (v - 26)

unfoldable pub encode_groups : Bytes → ℕ → ℕ → Bytes
encode_groups [] acc bits = if bits == 0 then [] else b32_char (acc * 2 ^ (5 - bits)) ∷ []
encode_groups (b ∷ rest) acc bits =
    let word = acc * 2 ^ 8 + b in
    let one = encode_groups rest (word % 2 ^ (bits + 3)) (bits + 3) in
    let two = encode_groups rest (word % 2 ^ (bits - 2)) (bits - 2) in
    if ltb bits 2
    then b32_char (word / 2 ^ (bits + 3)) ∷ one
    else b32_char (word / 2 ^ (bits + 3)) ∷ b32_char (word / 2 ^ (bits - 2) % 2 ^ 5) ∷ two

unfoldable pub encode_base32 : Bytes → Bytes
encode_base32 data_bytes = encode_groups data_bytes 0 0
