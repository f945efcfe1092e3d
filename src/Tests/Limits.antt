-- ===== src/Tests/Limits.antt =====
-- A limiter that is full, with numbers in thousandths and a token a second.
use heros_agent.Base.{
  ℕ, ◌-◌, ◌*◌, ◌+◌, ◌≡◌, ◌≢◌, refl, arith, ltb, true, false, List, [], ◌∷◌, String, str_eq, eq_iff,
}
use heros_agent.RateLimit.{Floats, Limiter, allow}
use heros_agent.RateLimit.Fair.{asks, key_of, after_call, IsSpared, IsBounded, call_lem}

abbrev thousandths : Floats
thousandths = record {
  Float = ℕ;
  of_int = λ n. n * 1000;
  plus = λ a b. a + b;
  minus = λ a b. a - b;
  less = ltb;
  share = λ now last refill. now - last;
  wait = λ tokens refill. refill;
}

-- One key has spent its tokens.
abbrev crowded : Limiter thousandths
crowded = record {
  burst = 2;
  refill = 1000;
  capacity = 1;
  keys = ("victim", record { tokens = 0; last = 5 }) ∷ [];
}

call_lem_example :
    ((key : String)
      → key_of thousandths (asks "flood" 6) ≢ key
      → IsSpared thousandths
          (asks "flood" 6)
          key
          crowded
          (after_call thousandths (asks "flood" 6) crowded))
    × (IsBounded thousandths crowded
        → IsBounded thousandths (after_call thousandths (asks "flood" 6) crowded))
call_lem_example = call_lem thousandths (asks "flood" 6) crowded

-- The new key is refused, and the spent one is kept.
flood_test : allow thousandths "flood" 6 crowded ≡ (crowded, false, 1000)
unfolding allow heros_agent.Base.lookup heros_agent.RateLimit.sweep_full
    heros_agent.RateLimit.without_full heros_agent.RateLimit.is_full
flood_test = refl
