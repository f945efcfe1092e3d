-- ===== src/RateLimit.antt =====
-- internal/ratelimit/ratelimit.go: a token bucket for each key. The arithmetic of floating-point numbers
-- is a parameter. Each method runs under the limiter's mutex, at the time that its clock gives.
pub mod Fair
use heros_agent.Base.{
  ℕ, ◌<◌, ltb, leb, Bool, true, false, Option, none, some, List, [], ◌∷◌, String, Map, lookup,
  insert, length, if◌then◌else◌,
}

-- Go's float64, and the operations on it that the limiter uses. `share` is the time from the second
-- instant to the first, in seconds, by a duration in seconds; `wait` is how long the refused caller is
-- told to wait, from the tokens that the bucket has.
pub record Floats : Type 1 where
  pub Float : Type 0
  pub of_int : ℕ → Float
  pub plus : Float → Float → Float
  pub minus : Float → Float → Float
  pub less : Float → Float → Bool
  pub share : ℕ → ℕ → ℕ → Float
  pub wait : Float → ℕ → ℕ

module _ (floats : Floats) where
  pub record Bucket : Type 0 where
    pub tokens : floats.Float
    pub last : ℕ

  pub record Limiter : Type 0 where
    pub burst : ℕ
    pub refill : ℕ
    pub capacity : ℕ
    pub keys : Map Bucket

  -- None when it panics.
  unfoldable pub new_limiter : ℕ → ℕ → ℕ → Option Limiter
  new_limiter burst refill capacity =
      if ltb burst 1
      then none
      else if leb refill 0
      then none
      else some (record { burst = burst; refill = refill; capacity = capacity; keys = [] })

  -- `a >= b`, where neither is not a number.
  abbrev pub at_least : floats.Float → floats.Float → Bool
  at_least a b = if floats.less a b then false else true

  abbrev pub clamp : Limiter → floats.Float → floats.Float
  clamp l tokens =
      if floats.less (floats.of_int l.burst) tokens then floats.of_int l.burst else tokens

  -- Whether the bucket has refilled completely.
  unfoldable pub is_full : Limiter → ℕ → Bucket → Bool
  is_full l now b =
      at_least (floats.plus b.tokens (floats.share now b.last l.refill)) (floats.of_int l.burst)

  unfoldable pub without_full : Limiter → ℕ → Map Bucket → Map Bucket
  without_full l now [] = []
  without_full l now ((k, b) ∷ keys) =
      let rest = without_full l now keys in if is_full l now b then rest else (k, b) ∷ rest

  unfoldable pub sweep_full : ℕ → Limiter → Limiter
  sweep_full now l = record l { keys = without_full l now l.keys }

  abbrev pub refilled : Limiter → ℕ → Bucket → Bucket
  refilled l now b =
      if ltb b.last now
      then record {
        tokens = clamp l (floats.plus b.tokens (floats.share now b.last l.refill));
        last = now;
      }
      else b

  -- The refill and the spending, for a key that is held.
  unfoldable pub spend : String → ℕ → Bucket → Limiter → Limiter × Bool × ℕ
  spend key now held l =
      let b = refilled l now held in
      if floats.less b.tokens (floats.of_int 1)
      then (record l { keys = insert key b l.keys }, false, floats.wait b.tokens l.refill)
      else (
        record l {
          keys = insert key (record b { tokens = floats.minus b.tokens (floats.of_int 1) }) l.keys;
        },
        true,
        0,
      )

  -- What makes room for a new key.
  abbrev pub make_room : ℕ → Limiter → Limiter
  make_room now l = if leb l.capacity (length l.keys) then sweep_full now l else l

  unfoldable pub allow : String → ℕ → Limiter → Limiter × Bool × ℕ
  allow key now l = elim (lookup key l.keys) [
    | some b ↦ spend key now b l
    | none ↦
        let roomy = make_room now l in
        if leb roomy.capacity (length roomy.keys)
        then (roomy, false, roomy.refill)
        else spend key now (record { tokens = floats.of_int roomy.burst; last = now }) roomy
  ]

  unfoldable pub restore : String → Limiter → Limiter
  restore key l = elim (lookup key l.keys) [
    | none ↦ l
    | some b ↦ record l {
      keys =
          insert key (record b { tokens = clamp l (floats.plus b.tokens (floats.of_int 1)) })
            l.keys;
    }
  ]
