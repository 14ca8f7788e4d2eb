-- ===== src/Algorithm.antt =====
-- algorithm.go, `hashFuncFor` of hotp.go and `expectedHMACSize` of secret_runtime.go: the hash
-- algorithms, and HMAC as the library uses it.
use genotp_go.Base.{ℕ, Bytes, All, IsByte, length, Option, none, some, codes, ◌≡◌}
use genotp_go.Base.Int.{ℤ}

-- `type Algorithm int`: three constants, and every other int.
pub data Algorithm : Type 0 where
  sha1 sha256 sha512 : Algorithm
  other : ℤ → Algorithm

unfoldable pub to_string : Algorithm → Bytes
to_string sha256 = codes "SHA256"
to_string sha512 = codes "SHA512"
to_string _ = codes "SHA1"

-- The constructors of crypto/sha1, crypto/sha256 and crypto/sha512.
pub data HashFn : Type 0 where
  sha1_new sha256_new sha512_new : HashFn

unfoldable pub hash_func_for : Algorithm → Option HashFn
hash_func_for sha1 = some sha1_new
hash_func_for sha256 = some sha256_new
hash_func_for sha512 = some sha512_new
hash_func_for (other _) = none

unfoldable pub expected_hmac_size : Algorithm → ℕ
expected_hmac_size sha1 = 20
expected_hmac_size sha256 = 32
expected_hmac_size sha512 = 64
expected_hmac_size (other _) = 0

-- The digest sizes that the packages document.
abbrev pub digest_size : HashFn → ℕ
digest_size sha1_new = 20
digest_size sha256_new = 32
digest_size sha512_new = 64

-- crypto/hmac: `hmac.New(hashFn, key)`, one Write of the message, and Sum. The program relies on
-- the size of the digest and on nothing else.
pub record Hmac : Type 0 where
  pub mac : HashFn → Bytes → Bytes → Bytes
  pub size : (f : HashFn) (key message : Bytes) → length (mac f key message) ≡ digest_size f
  pub bytes : (f : HashFn) (key message : Bytes) → All IsByte (mac f key message)
