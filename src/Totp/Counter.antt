-- ===== src/Totp/Counter.antt =====
-- The signed steps from a counter: what `checkedAddSigned` and `addCounterSigned` return.
use genotp_go.Base.{
  ℕ, ◌+◌, ◌-◌, ◌*◌, ◌^◌, ◌≤◌, ◌<◌, ltb, leb, if◌then◌else◌, none, some, ◌≡◌, arith,
}
use genotp_go.Base.Int.{ℤ, pos, negsuc, ◌+ℤ◌, sub_ℕ, pos_part, neg_part}
use genotp_go.Totp.{checked_add_signed, add_counter_signed}

-- For a uint64 counter and an int64 offset `checkedAddSigned` returns the exact sum when it is a
-- uint64, and fails otherwise.
pub checked_add_signed_lem :
    (counter : ℕ) (delta : ℤ)
    → counter < 2 ^ 64
    → pos_part delta < 2 ^ 63
    → checked_add_signed counter delta ≡ (
        if ltb (counter + pos_part delta) (neg_part delta)
        then none
        else if leb (2 ^ 64) (counter + pos_part delta - neg_part delta)
        then none
        else some (counter + pos_part delta - neg_part delta))
unfolding checked_add_signed
checked_add_signed_lem counter (pos d) h1 h2 = ground arith
checked_add_signed_lem counter (negsuc n) h1 h2 = ground arith

-- The offsets of a window in the order of the loop.
pub next_offset : (k window : ℕ) → sub_ℕ k window +ℤ pos 1 ≡ sub_ℕ (k + 1) window
unfolding ◌+ℤ◌
next_offset k window = ground arith

-- The counter that round `k` of a loop over -window, …, window tries.
pub round_counter :
    (counter window k : ℕ)
    → counter < 2 ^ 64
    → k ≤ 2 * window
    → window ≤ 1000
    → add_counter_signed counter (sub_ℕ k window)
      ≡ (if leb (2 ^ 64) (counter + k - window) then 0 else counter + k - window)
unfolding add_counter_signed checked_add_signed
round_counter counter window k h1 h2 h3 = ground arith
