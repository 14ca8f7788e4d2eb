-- ===== src/Skew.antt =====
-- skew.go: the clock skew detector, a ring buffer of the offsets at which codes matched, with an
-- offset that follows their mean. The operations on float64 are the record Float64. A call holds
-- the lock throughout.
pub mod Ring
pub mod Samples
use genotp_go.Base.{
  ℕ, zero, suc, ◌+◌, ◌-◌, ◌%◌, ◌^◌, Bool, true, false, ◌&&◌, ltb, leb, ◌==◌, if◌then◌else◌, List,
  [], ◌∷◌, ◌++◌, length, get_elem?, set, Bytes, Option, none, some, codes,
}
use genotp_go.Base.Int.{ℤ, pos, negsuc, ◌+ℤ◌, ◌-ℤ◌, ltb_ℤ, leb_ℤ, is_zero}
use genotp_go.Errors.{Result, ok, err, panic, ◌>>=◌}
use genotp_go.Totp.{Detector}

-- float64: the conversion from int64, the arithmetic, `<=` and `==`, `int64(math.Round(x))`, and the
-- constants 0, 0.2 and 0.5 and the difference 1 - 0.2.
pub record Float64 (F : Type 0) : Type 0 where
  pub of_int : ℤ → F
  pub add : F → F → F
  pub mul : F → F → F
  pub div : F → F → F
  pub abs : F → F
  pub le : F → F → Bool
  pub eq : F → F → Bool
  pub round : F → ℤ
  pub alpha : F
  pub one_minus_alpha : F
  pub fifth : F
  pub half : F

pub data SkewRecommend : Type 0 where
  insufficient_data no_action_needed consistent_drift widen_window_or_check_ntp : SkewRecommend

pub record SkewReport (F : Type 0) : Type 0 where
  pub sample_count : ℕ
  pub mean_offset : F
  pub non_zero_count : ℤ
  pub edge_hit_ratio : F
  pub recommend : SkewRecommend

pub record SkewState : Type 0 where
  pub buffer : List ℤ
  pub capacity : ℕ
  pub write_idx : ℕ
  pub filled : ℕ
  pub sum : ℤ
  pub non_zero_count : ℤ

pub record ClockSkewDetector : Type 0 where
  pub state : SkewState
  pub auto_adjust : Bool
  pub offset : ℤ
  pub smoothed_scaled : ℤ
  pub last_window_used : ℤ

abbrev pub empty_state : ℕ → SkewState
empty_state capacity = record {
  buffer = [];
  capacity = capacity;
  write_idx = 0;
  filled = 0;
  sum = pos 0;
  non_zero_count = pos 0;
}

-- `make([]int64, 0, capacity)` panics on a negative capacity.
unfoldable pub new_clock_skew_detector : ℤ → Result ClockSkewDetector
new_clock_skew_detector (negsuc n) = panic
new_clock_skew_detector (pos capacity) = ok (record {
  state = empty_state capacity;
  auto_adjust = false;
  offset = pos 0;
  smoothed_scaled = pos 0;
  last_window_used = pos 0;
})

-- An int64 sum that left its range comes back in at the other end.
abbrev pub wrap_int64 : ℤ → ℤ
wrap_int64 n =
    if leb_ℤ (pos (2 ^ 63)) n
    then n -ℤ pos (2 ^ 64)
    else if ltb_ℤ n (negsuc (2 ^ 63 - 1))
    then n +ℤ pos (2 ^ 64)
    else n

-- `if v != 0 { n++ }` and `if v != 0 { n-- }`
abbrev pub count_in : ℤ → ℤ → ℤ
count_in v n = if is_zero v then n else n +ℤ pos 1

abbrev pub count_out : ℤ → ℤ → ℤ
count_out v n = if is_zero v then n else n -ℤ pos 1

-- The branch of `Record` for a buffer that is not full.
unfoldable pub append_sample : SkewState → ℤ → SkewState
append_sample s v = record s {
  buffer = s.buffer ++ (v ∷ []);
  sum = wrap_int64 (s.sum +ℤ v);
  non_zero_count = count_in v s.non_zero_count;
  filled = s.filled + 1;
  write_idx = (s.filled + 1) % s.capacity;
}

-- The other branch: the sample at `writeIdx` is replaced. An index out of range panics.
unfoldable pub replace_sample : SkewState → ℤ → Result SkewState
replace_sample s v = elim (get_elem? s.buffer s.write_idx) [
  | none ↦ panic
  | some old ↦
      if s.capacity == 0
      then panic
      else ok (record s {
        buffer = set s.buffer s.write_idx v;
        sum = wrap_int64 (wrap_int64 (s.sum -ℤ old) +ℤ v);
        non_zero_count = count_in v (count_out old s.non_zero_count);
        write_idx = (s.write_idx + 1) % s.capacity;
      })
]

unfoldable pub add_sample : SkewState → ℤ → Result SkewState
add_sample s v = if ltb s.filled s.capacity then ok (append_sample s v) else replace_sample s v

abbrev pub last_window : ℕ → ℤ
last_window window = if ltb (2 ^ 63 - 1) window then pos (2 ^ 63 - 1) else pos window

module _ {F : Type 0} (fl : Float64 F) where
  -- The exponential moving average at the end of `Record`.
  unfoldable pub adjust : ClockSkewDetector → ClockSkewDetector
  adjust d =
      let mean = fl.div (fl.of_int d.state.sum) (fl.of_int (pos d.state.filled)) in
      let prev = fl.div (fl.of_int d.smoothed_scaled) (fl.of_int (pos 1000)) in
      let smoothed = fl.add (fl.mul fl.alpha mean) (fl.mul fl.one_minus_alpha prev) in
      record d {
        smoothed_scaled = fl.round (fl.mul smoothed (fl.of_int (pos 1000)));
        offset = if fl.le fl.half (fl.abs smoothed) then fl.round smoothed else pos 0;
      }

  unfoldable pub record_offset : ClockSkewDetector → ℤ → ℕ → Result ClockSkewDetector
  record_offset d matched_offset window_used = add_sample d.state matched_offset >>= (λ s.
      let noted : ClockSkewDetector = record d {
        state = s;
        last_window_used = last_window window_used;
      } in
      ok (if d.auto_adjust && leb 16 s.filled then adjust noted else noted))

  -- The detector, as `VerifyTracking` uses it.
  abbrev pub skew_detector : Detector ClockSkewDetector
  skew_detector = record {
    current_offset = λ d. d.offset;
    record_match = λ i window d. record_offset d i window;
  }

  unfoldable pub edge_hits : List ℤ → ℤ → ℕ
  edge_hits [] window_used = 0
  edge_hits (v ∷ buffer) window_used =
      let rest = edge_hits buffer window_used in
      if fl.eq (fl.abs (fl.of_int v)) (fl.of_int window_used) then suc rest else rest

  unfoldable pub report : ClockSkewDetector → SkewReport F
  report d =
      let s = d.state in
      let mean = fl.div (fl.of_int s.sum) (fl.of_int (pos s.filled)) in
      let hits =
        if ltb_ℤ (pos 0) d.last_window_used then edge_hits s.buffer d.last_window_used else 0 in
      let ratio = fl.div (fl.of_int (pos hits)) (fl.of_int (pos s.filled)) in
      if ltb s.filled 8
      then record {
        sample_count = s.filled;
        mean_offset = fl.of_int (pos 0);
        non_zero_count = s.non_zero_count;
        edge_hit_ratio = fl.of_int (pos 0);
        recommend = insufficient_data;
      }
      else record {
        sample_count = s.filled;
        mean_offset = mean;
        non_zero_count = s.non_zero_count;
        edge_hit_ratio = ratio;
        recommend =
            if fl.le fl.fifth ratio
            then widen_window_or_check_ntp
            else if fl.le fl.half (fl.abs mean)
            then consistent_drift
            else no_action_needed;
      }

unfoldable pub enable_auto_adjust : ClockSkewDetector → ClockSkewDetector
enable_auto_adjust d = record d { auto_adjust = true }

unfoldable pub disable_auto_adjust : ClockSkewDetector → ClockSkewDetector
disable_auto_adjust d = record d { auto_adjust = false; offset = pos 0; smoothed_scaled = pos 0 }

unfoldable pub reset_detector : ClockSkewDetector → ClockSkewDetector
reset_detector d = record d {
  state = empty_state d.state.capacity;
  offset = pos 0;
  smoothed_scaled = pos 0;
}
