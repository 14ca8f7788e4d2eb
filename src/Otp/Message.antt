-- ===== src/Otp/Message.antt =====
-- The message that is hashed, as RFC 4226 and the binding of a context define it.
use genotp_go.Base.{
  ℕ, zero, suc, ◌/◌, ◌%◌, ltb, true, Bytes, [], ◌∷◌, ◌++◌, length, codes, ◌≡◌, ap, arith,
}
use genotp_go.Otp.{put_uint64, message_of, context_bind_tag}

-- The last `n` bytes of a number, the highest first.
unfoldable pub big_endian : ℕ → ℕ → Bytes
big_endian zero v = []
big_endian (suc n) v = big_endian n (v / 256) ++ (v % 256 ∷ [])

-- Eight bytes of the counter; where there is a context, the text "genotp-ctx-v1", a zero byte and the
-- context come behind them.
unfoldable pub rfc_message : ℕ → Bytes → Bytes
rfc_message counter [] = big_endian 8 counter
rfc_message counter (b ∷ context) =
    big_endian 8 counter ++ (codes "genotp-ctx-v1" ++ (0 ∷ b ∷ context))

put_uint64-big_endian : (v : ℕ) → put_uint64 v ≡ big_endian 8 v
unfolding put_uint64 big_endian
put_uint64-big_endian v = ground arith

some_context : (n : ℕ) → ltb 0 (suc n) ≡ true
some_context n = ground arith

pub message_of-rfc_message :
    (counter : ℕ) (context : Bytes) → message_of counter context ≡ rfc_message counter context
unfolding message_of rfc_message
message_of-rfc_message counter [] = put_uint64-big_endian counter
message_of-rfc_message counter (b ∷ context) =
    rw (some_context (length context))
      (ap (λ m. m ++ (context_bind_tag ++ (b ∷ context))) (put_uint64-big_endian counter))
