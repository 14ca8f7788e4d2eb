-- ===== src/Tests/Samples.antt =====
-- The ring buffer of the skew detector at a concrete state.
use genotp_go.Base.{◌∷◌, [], refl, arith}
use genotp_go.Base.Int.{pos, negsuc}
use genotp_go.Skew.{SkewState, add_sample}
use genotp_go.Skew.Ring.{IsRing, Added, add_sample-Added}
use genotp_go.Skew.Samples.{non_zeros}

-- Three samples, of which that at index 1 is the oldest: 0, 2, -1.
abbrev full : SkewState
full = record {
  buffer = negsuc 0 ∷ pos 0 ∷ pos 2 ∷ [];
  capacity = 3;
  write_idx = 1;
  filled = 3;
  sum = pos 1;
  non_zero_count = pos 2;
}

full-IsRing : IsRing full
unfolding non_zeros
full-IsRing = record {
  size = refl;
  room = omega arith;
  inside = omega arith;
  at_end = λ h. absurd (omega arith);
  counted = refl;
}

add_sample-Added_example : Added full (pos 7) (add_sample full (pos 7))
add_sample-Added_example = add_sample-Added full (pos 7) full-IsRing
