-- ===== src/Verifier/Interleaved.antt =====
-- Goroutines that share a verifier: one of them takes a step at a time, in any order, and the limit
-- of attempts holds up to their number.
use genotp_go.Base.{
  ℕ, zero, suc, ◌+◌, ◌≤◌, ◌<◌, Bool, true, false, List, [], ◌∷◌, ◌++◌, length, length-append,
  replicate, length-replicate, ◌≡◌, refl, sym, ap, ◌∙◌, arith,
}
use mathlib.Core.Path.{subst}
use genotp_go.Base.Int.{ℤ}
use genotp_go.Errors.{Result, ok, err, panic}
use genotp_go.Replay.{ReplayStore}
use genotp_go.Verifier.{
  Verifier, count_failure, reset_attempts, clear_used_codes, new_verifier_with_store,
}
use genotp_go.Verifier.Sections.{
  VerifyCall, Phase, idle, entered, passed, matched, failing, succeeding, panicked, answered,
  stored, section,
}

pub record System (S : Type 0) : Type 0 where
  pub verifier : Verifier S
  pub phases : List Phase

-- Whether a goroutine is past the check of the limit and may still count a failure.
abbrev pub pending : Phase → ℕ
pending (passed c) = 1
pending (matched c) = 1
pending failing = 1
pending _ = 0

abbrev pub in_flight : List Phase → ℕ
in_flight [] = 0
in_flight (p ∷ ps) = pending p + in_flight ps

-- Outside of a call.
abbrev pub IsAtRest : Phase → Type 0
IsAtRest idle = Unit {0}
IsAtRest (answered b) = Unit {0}
IsAtRest _ = ⊥

module _ {S : Type 0} (replay : ReplayStore S) where
  -- A step of one goroutine, which may be the beginning of a call, or a call of `ResetAttempts` or
  -- `ClearUsedCodes` by anyone.
  pub data Step (s t : System S) : Type 0 where
    turn :
        (now : ℤ) (front : List Phase) (p : Phase) (back : List Phase)
        → s.phases ≡ front ++ (p ∷ back)
        → t ≡ record {
          verifier = (section replay s.verifier now p).0;
          phases = front ++ ((section replay s.verifier now p).1 ∷ back);
        }
        → Step s t
    begin :
        (c : VerifyCall) (front : List Phase) (p : Phase) (back : List Phase)
        → IsAtRest p
        → s.phases ≡ front ++ (p ∷ back)
        → t ≡ record { verifier = s.verifier; phases = front ++ (entered c ∷ back) }
        → Step s t
    resetting : t ≡ record { verifier = reset_attempts s.verifier; phases = s.phases } → Step s t
    clearing :
        t ≡ record { verifier = clear_used_codes replay s.verifier; phases = s.phases } → Step s t

  pub data Reach (s : System S) : System S → Type 0 where
    here : Reach s s
    next : {t u : System S} → Reach s t → Step t u → Reach s u

-- The failures that are counted, and those that may still be: fewer than the limit and the number
-- of goroutines together.
pub record IsBounded {S : Type 0} (max n : ℕ) (s : System S) : Type 0 where
  pub limit : s.verifier.max_attempts ≡ max
  pub goroutines : length s.phases ≡ n
  pub room : s.verifier.attempts + in_flight s.phases < max + n

in_flight-append : (ps qs : List Phase) → in_flight (ps ++ qs) ≡ in_flight ps + in_flight qs
in_flight-append [] qs = omega arith
in_flight-append (p ∷ ps) qs = omega (arith, in_flight-append ps qs)

pending_le : (p : Phase) → pending p ≤ 1
pending_le idle = omega arith
pending_le (entered c) = omega arith
pending_le (passed c) = omega arith
pending_le (matched c) = omega arith
pending_le failing = omega arith
pending_le succeeding = omega arith
pending_le panicked = omega arith
pending_le (answered b) = omega arith

in_flight_le : (ps : List Phase) → in_flight ps ≤ length ps
in_flight_le [] = omega arith
in_flight_le (p ∷ ps) = omega (arith, pending_le p, in_flight_le ps)

module _ {S : Type 0} (replay : ReplayStore S) where
  -- What a step does to the count, for goroutines of which `others` are in flight besides this one.
  abbrev Stays : ℕ → ℕ → ℕ → Verifier S × Phase → Type 0
  Stays max others n (v, p) = (v.max_attempts ≡ max) × (v.attempts + (others + pending p) < max + n)

  stored-Stays :
      (v : Verifier S) (max others n : ℕ) (out : S × Result Bool)
      → v.max_attempts ≡ max
      → v.attempts + (others + 1) < max + n
      → Stays max others n (stored replay v out)
  unfolding stored
  stored-Stays v max others n (store, ok true) limit room = (limit, omega arith)
  stored-Stays v max others n (store, ok false) limit room = (limit, room)
  stored-Stays v max others n (store, err e) limit room = (limit, room)
  stored-Stays v max others n (store, panic) limit room = (limit, omega arith)

  section-Stays :
      (v : Verifier S) (now : ℤ) (max others n : ℕ) (p : Phase)
      → 0 < max
      → others < n
      → v.max_attempts ≡ max
      → v.attempts + (others + pending p) < max + n
      → Stays max others n (section replay v now p)
  unfolding section count_failure reset_attempts
  section-Stays v now max others n idle pos few limit room = (limit, room)
  section-Stays v now max others n (entered c) pos few limit room =
      ground (arith, pos, few, limit, room)
  section-Stays v now max others n (passed c) pos few limit room = ground (arith, limit, room)
  section-Stays v now max others n (matched c) pos few limit room =
      stored-Stays v max others n _ limit room
  section-Stays v now max others n failing pos few limit room = (limit, omega arith)
  section-Stays v now max others n succeeding pos few limit room = (limit, omega arith)
  section-Stays v now max others n panicked pos few limit room = (limit, room)
  section-Stays v now max others n (answered b) pos few limit room = (limit, room)

  middle :
      (front : List Phase) (p : Phase) (back : List Phase)
      → in_flight (front ++ (p ∷ back)) ≡ (in_flight front + in_flight back) + pending p
  middle front p back = omega (arith, in_flight-append front (p ∷ back))

  same_length :
      (front back : List Phase) (p q : Phase)
      → length (front ++ (p ∷ back)) ≡ length (front ++ (q ∷ back))
  same_length front back p q =
      omega (arith, length-append front (p ∷ back), length-append front (q ∷ back))

  -- Another phase of one goroutine, and another state of the verifier.
  IsBounded-replace :
      {max n : ℕ} (s t : System S) (v : Verifier S) (front back : List Phase) (p q : Phase)
      → IsBounded max n s
      → s.phases ≡ front ++ (p ∷ back)
      → t ≡ record { verifier = v; phases = front ++ (q ∷ back) }
      → Stays max (in_flight front + in_flight back) n (v, q)
      → IsBounded max n t
  IsBounded-replace {max = max} {n = n} s t v front back p q b e e' stays =
      subst (IsBounded max n) (sym e') (record {
        limit = stays.0;
        goroutines = same_length front back q p ∙ ap length (sym e) ∙ b.goroutines;
        room = omega (arith, stays.1, middle front q back);
      })

  others-lt :
      {max n : ℕ} (s : System S) (front back : List Phase) (p : Phase)
      → IsBounded max n s
      → s.phases ≡ front ++ (p ∷ back)
      → in_flight front + in_flight back < n
  others-lt s front back p b e = omega (
    arith,
    in_flight_le front,
    in_flight_le back,
    length-append front (p ∷ back),
    ap length e,
    b.goroutines,
  )

  before_step :
      {max n : ℕ} (s : System S) (front back : List Phase) (p : Phase)
      → IsBounded max n s
      → s.phases ≡ front ++ (p ∷ back)
      → s.verifier.attempts + ((in_flight front + in_flight back) + pending p) < max + n
  before_step s front back p b e = omega (arith, middle front p back, ap in_flight e, b.room)

  at_rest : (p : Phase) → IsAtRest p → pending p ≡ 0
  at_rest idle r = refl
  at_rest (answered b) r = refl
  at_rest (entered c) r = refl
  at_rest succeeding r = refl
  at_rest panicked r = refl
  at_rest (passed c) r = absurd r
  at_rest (matched c) r = absurd r
  at_rest failing r = absurd r

  Step-IsBounded :
      {max n : ℕ} {s t : System S}
      → 0 < max
      → Step replay s t
      → IsBounded max n s
      → IsBounded max n t
  Step-IsBounded {max = max} {n = n} {s = s} {t = t} pos (turn now front p back e e') b =
      IsBounded-replace s t (section replay s.verifier now p).0 front back p
        (section replay s.verifier now p).1 b e e'
        (section-Stays s.verifier now max (in_flight front + in_flight back) n p pos
          (others-lt s front back p b e) b.limit (before_step s front back p b e))
  Step-IsBounded {max = max} {n = n} {s = s} {t = t} pos (begin c front p back r e e') b =
      IsBounded-replace s t s.verifier front back p (entered c) b e e'
        (b.limit, omega (arith, before_step s front back p b e, at_rest p r))
  Step-IsBounded {max = max} {n = n} {s = s} {t = t} pos (resetting e) b =
      unfold reset_attempts in
      subst (IsBounded max n) (sym e) (record {
        limit = b.limit;
        goroutines = b.goroutines;
        room = omega (arith, pos, in_flight_le s.phases, b.goroutines);
      })
  Step-IsBounded {max = max} {n = n} {s = s} {t = t} pos (clearing e) b =
      unfold clear_used_codes in
      subst (IsBounded max n) (sym e)
        (record { limit = b.limit; goroutines = b.goroutines; room = b.room })

  Reach-IsBounded :
      {max n : ℕ} {s t : System S}
      → 0 < max
      → Reach replay s t
      → IsBounded max n s
      → IsBounded max n t
  Reach-IsBounded pos here b = b
  Reach-IsBounded pos (next r step) b = Step-IsBounded pos step (Reach-IsBounded pos r b)

  in_flight_idle : (n : ℕ) → in_flight (replicate n idle) ≡ 0
  in_flight_idle zero = refl
  in_flight_idle (suc n) = omega (arith, in_flight_idle n)

  -- However the steps of `n` goroutines interleave on a new verifier with a limit above 0, resets
  -- included, the attempts that are counted and the calls that are past the check of the limit and
  -- may still count a failure are together fewer than the limit plus `n`: the check and the count,
  -- which are two locked sections, let the limit be passed by fewer than `n`.
  pub attempts-lt :
      (max n : ℕ) (store : S) (ttl : ℤ) (t : System S)
      → 0 < max
      → Reach replay
          (record { verifier = new_verifier_with_store max store ttl; phases = replicate n idle })
          t
      → t.verifier.attempts + in_flight t.phases < max + n
  unfolding new_verifier_with_store
  attempts-lt max n store ttl t pos r =
      (Reach-IsBounded {max = max} {n = n} pos r (record {
        limit = refl;
        goroutines = length-replicate n idle;
        room = omega (arith, pos, in_flight_idle n);
      })).room
