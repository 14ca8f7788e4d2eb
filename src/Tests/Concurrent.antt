-- ===== src/Tests/Concurrent.antt =====
-- Two goroutines on one verifier that allows a single attempt.
use genotp_go.Base.{true, ◌↔◌, ◌+◌, ◌<◌, [], ◌∷◌, replicate, codes, none, ◌≡◌, refl, arith}
use genotp_go.Base.Int.{pos}
use genotp_go.Replay.{InMemoryReplayStore, in_memory}
use genotp_go.Verifier.{Verifier, new_verifier_with_store}
use genotp_go.Verifier.Sections.{VerifyCall, idle, entered, answered, section}
use genotp_go.Verifier.Resumed.{resumed, IsPassed, resumed-accepts_iff}
use genotp_go.Tests.Data.{checked}
use genotp_go.Verifier.Interleaved.{System, Reach, here, next, turn, begin, in_flight, attempts-lt}

abbrev store : InMemoryReplayStore
store = record { entries = []; order = []; max_size = 20; next_sweep = none; sweep_every = pos 30 }

-- A wrong code.
abbrev guess : VerifyCall
guess = record {
  code = codes "000000";
  expected = codes "755224";
  issued_context = [];
  request_context = [];
}

abbrev fresh : Verifier InMemoryReplayStore
fresh = record { store = store; ttl = pos 90; max_attempts = 1; attempts = 0 }

-- Somebody else has failed between the sections of the call.
abbrev failed_once : Verifier InMemoryReplayStore
failed_once = record { store = store; ttl = pos 90; max_attempts = 1; attempts = 1 }

resumed-accepts_iff_example :
    (resumed in_memory
        ((fresh, pos 40) ∷ (failed_once, pos 41) ∷ (failed_once, pos 42) ∷ (fresh, pos 43) ∷ [])
        (entered guess)
      ≡ answered true)
    ↔ IsPassed in_memory fresh failed_once (pos 42) guess
resumed-accepts_iff_example =
    resumed-accepts_iff in_memory fresh failed_once failed_once fresh (pos 40) (pos 41) (pos 42)
      (pos 43) guess (checked (codes "000000") refl, omega arith)
      (checked (codes "755224") refl, omega arith) (tt, omega arith) (tt, omega arith)

abbrev start : System InMemoryReplayStore
start = record { verifier = new_verifier_with_store 1 store (pos 90); phases = replicate 2 idle }

abbrev checked_one : System InMemoryReplayStore
checked_one = record {
  verifier = (section in_memory start.verifier (pos 40) (entered guess)).0;
  phases = (section in_memory start.verifier (pos 40) (entered guess)).1 ∷ entered guess ∷ [];
}

reached : Reach in_memory start checked_one
reached =
    next
      (next (next here (begin guess [] idle (idle ∷ []) tt refl refl))
        (begin guess (entered guess ∷ []) idle [] tt refl refl))
      (turn (pos 40) [] (entered guess) (entered guess ∷ []) refl refl)

attempts-lt_example : checked_one.verifier.attempts + in_flight checked_one.phases < 1 + 2
attempts-lt_example = attempts-lt in_memory 1 2 store (pos 90) checked_one (omega arith) reached
