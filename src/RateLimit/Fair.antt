-- ===== src/RateLimit/Fair.antt =====
-- What the requests with other keys do to a key of internal/ratelimit/ratelimit.go, and how many keys
-- it holds.
use heros_agent.Base.{
  ℕ, suc, ◌≤◌, ◌≡◌, ◌≢◌, refl, sym, ◌∙◌, ap, subst, arith, leb, true, false, none, some, [], ◌∷◌,
  String, str_eq, str_eq-false, Map, lookup, insert, lookup-insert, length, ◌⊎◌, inl, inr,
  Bool-cases, Option-cases,
}
use heros_agent.RateLimit.{
  Floats, Bucket, Limiter, is_full, without_full, sweep_full, make_room, refilled, spend, allow,
  restore,
}

length-insert :
    {V : Type 0} (key : String) (v : V) (m : Map V)
    → ((lookup key m ≡ none) × (length (insert key v m) ≡ suc (length m)))
      ⊎ ((lookup key m ≢ none) × (length (insert key v m) ≡ length m))
unfolding lookup insert
length-insert key v [] = inl (refl, refl)
length-insert key v ((k, old) ∷ m) = elim (Bool-cases (str_eq k key)) [
  | inl e ↦ rw e (inr (λ h. absurd (ground arith), refl))
  | inr e ↦ rw e (elim (length-insert key v m) [
    | inl (new, longer) ↦ inl (new, ap suc longer)
    | inr (held, same) ↦ inr (held, ap suc same)
  ])
]

module _ (floats : Floats) where
  -- A request, or the return of a token.
  pub data Call : Type 0 where
    asks : (key : String) (now : ℕ) → Call
    returns : (key : String) → Call

  abbrev pub after_call : Call → Limiter floats → Limiter floats
  after_call (asks key now) l = (allow floats key now l).0
  after_call (returns key) l = restore floats key l

  abbrev pub key_of : Call → String
  key_of (asks key now) = key
  key_of (returns key) = key

  without_full-length :
      (l : Limiter floats) (now : ℕ) (keys : Map (Bucket floats))
      → length (without_full floats l now keys) ≤ length keys
  unfolding without_full
  without_full-length l now [] = omega arith
  without_full-length l now ((k, b) ∷ keys) =
      let rest = without_full-length l now keys in ground arith

  -- A key is dropped only if every bucket that stands for it is full: the others are kept.
  without_full-lookup :
      (l : Limiter floats) (now : ℕ) (keys : Map (Bucket floats)) (key : String) (b : Bucket floats)
      → lookup key keys ≡ some b
      → is_full floats l now b ≡ false
      → lookup key (without_full floats l now keys) ≡ some b
  unfolding without_full lookup
  without_full-lookup l now [] key b at part = absurd (ground arith)
  without_full-lookup l now ((k, c) ∷ keys) key b at part = elim (Bool-cases (str_eq k key)) [
    | inl e ↦
        let same : c ≡ b = ground arith in
        let kept : is_full floats l now c ≡ false = ap (is_full floats l now) same ∙ part in
        rw kept (rw e (ap some same))
    | inr e ↦
        let rest = without_full-lookup l now keys key b (ground arith) part in
        elim (Bool-cases (is_full floats l now c)) [ inl f ↦ rw f rest | inr f ↦ rw f (rw e rest) ]
  ]

  without_full-none :
      (l : Limiter floats) (now : ℕ) (keys : Map (Bucket floats)) (key : String)
      → lookup key keys ≡ none
      → lookup key (without_full floats l now keys) ≡ none
  unfolding without_full lookup
  without_full-none l now [] key at = refl
  without_full-none l now ((k, c) ∷ keys) key at =
      let rest = without_full-none l now keys key (ground arith) in
      elim (Bool-cases (is_full floats l now c)) [ inl f ↦ rw f rest | inr f ↦ rw f (ground arith) ]

  -- Spending writes the bucket of its key and nothing else.
  spend-writes :
      (key : String) (now : ℕ) (b : Bucket floats) (l : Limiter floats)
      → (c : Bucket floats) × ((spend floats key now b l).0
          ≡ record l { keys = insert key c l.keys })
  unfolding spend
  spend-writes key now held l =
      let b = refilled floats l now held in
      elim (Bool-cases (floats.less b.tokens (floats.of_int 1))) [
        | inl e ↦ (b, rw (e, spend) refl)
        | inr e ↦
            (record b { tokens = floats.minus b.tokens (floats.of_int 1) }, rw (e, spend) refl)
      ]

  make_room-keeps :
      (now : ℕ) (l : Limiter floats) (key : String) (b : Bucket floats)
      → lookup key l.keys ≡ some b
      → (lookup key (make_room floats now l).keys ≡ some b) ⊎ (is_full floats l now b ≡ true)
  unfolding sweep_full
  make_room-keeps now l key b at = elim (Bool-cases (is_full floats l now b)) [
    | inl full ↦ inr full
    | inr part ↦ elim (Bool-cases (leb l.capacity (length l.keys))) [
      | inl e ↦ rw e (inl (without_full-lookup l now l.keys key b at part))
      | inr e ↦ rw e (inl at)
    ]
  ]

  make_room-none :
      (now : ℕ) (l : Limiter floats) (key : String)
      → lookup key l.keys ≡ none
      → lookup key (make_room floats now l).keys ≡ none
  unfolding sweep_full
  make_room-none now l key at = elim (Bool-cases (leb l.capacity (length l.keys))) [
    | inl e ↦ rw e (without_full-none l now l.keys key at)
    | inr e ↦ rw e at
  ]

  make_room-length :
      (now : ℕ) (l : Limiter floats)
      → (length (make_room floats now l).keys ≤ length l.keys)
        × ((make_room floats now l).capacity ≡ l.capacity)
  unfolding sweep_full
  make_room-length now l = elim (Bool-cases (leb l.capacity (length l.keys))) [
    | inl e ↦ rw e (without_full-length l now l.keys, refl)
    | inr e ↦ rw e (omega arith, refl)
  ]

  -- What a call does: it writes the bucket of a key that is held, or nothing; or it makes room, and
  -- writes the bucket of a new key if there is room.
  data Outcome (c : Call) (l : Limiter floats) : Limiter floats → Type 0 where
    held :
        (b b' : Bucket floats)
        → lookup (key_of c) l.keys ≡ some b
        → Outcome c l (record l { keys = insert (key_of c) b' l.keys })
    idle : Outcome c l l
    refused : (k : String) (now : ℕ) → c ≡ asks k now → Outcome c l (make_room floats now l)
    added :
        (k : String) (now : ℕ) (b' : Bucket floats)
        → c ≡ asks k now
        → lookup (key_of c) l.keys ≡ none
        → suc (length (make_room floats now l).keys) ≤ (make_room floats now l).capacity
        → Outcome c l (record (make_room floats now l) {
          keys = insert (key_of c) b' (make_room floats now l).keys;
        })

  call-Outcome : (c : Call) (l : Limiter floats) → Outcome c l (after_call c l)
  unfolding allow restore
  call-Outcome (returns key) l = elim (Option-cases (lookup key l.keys)) [
    | inl free ↦ rw (free, after_call, restore) idle
    | inr (b, at) ↦ rw (at, after_call, restore) (held b _ at)
  ]
  call-Outcome (asks key now) l = elim (Option-cases (lookup key l.keys)) [
    | inr (b, at) ↦
        let (b', made) = spend-writes key now b l in
        rw (at, after_call, allow) (subst (Outcome (asks key now) l) (sym made) (held b b' at))
    | inl free ↦
        let roomy = make_room floats now l in
        rw (free, after_call, allow)
          (elim (Bool-cases (leb roomy.capacity (length roomy.keys))) [
            | inl full ↦ rw full (refused key now refl)
            | inr room ↦
                let fresh : Bucket floats = record {
                  tokens = floats.of_int roomy.burst;
                  last = now;
                } in
                let (b', made) = spend-writes key now fresh roomy in
                rw room (
                  subst (Outcome (asks key now) l) (sym made)
                    (added key now b' refl free (ground arith)))
          ])
  ]

  -- The bucket of a key is there as it was; or what it holds and what has come back to it by the time of
  -- the request are not less than the burst, and it may have been dropped.
  abbrev pub IsSpared : Call → String → Limiter floats → Limiter floats → Type 0
  IsSpared c key l l' =
      (lookup key l'.keys ≡ lookup key l.keys)
      ⊎ ((k : String) × (now : ℕ) × (c ≡ asks k now)
          × (b : Bucket floats) × (lookup key l.keys ≡ some b)
          × (floats.less (floats.plus b.tokens (floats.share now b.last l.refill))
                (floats.of_int l.burst)
              ≡ false))

  insert-apart :
      (key other : String) (b : Bucket floats) (keys : Map (Bucket floats))
      → key ≢ other
      → lookup other (insert key b keys) ≡ lookup other keys
  insert-apart key other b keys apart =
      let read = lookup-insert key other b keys in
      let far = str_eq-false key other apart in ground arith

  full_has_all :
      (l : Limiter floats) (now : ℕ) (b : Bucket floats)
      → is_full floats l now b ≡ true
      → floats.less
          (floats.plus b.tokens (floats.share now b.last l.refill))
          (floats.of_int l.burst)
        ≡ false
  unfolding is_full
  full_has_all l now b full = ground arith

  make_room-IsSpared :
      (c : Call) (k : String) (now : ℕ) (l : Limiter floats) (key : String)
      → c ≡ asks k now
      → IsSpared c key l (make_room floats now l)
  make_room-IsSpared c k now l key is = elim (Option-cases (lookup key l.keys)) [
    | inl free ↦ inl (make_room-none now l key free ∙ sym free)
    | inr (b, at) ↦ elim (make_room-keeps now l key b at) [
      | inl kept ↦ inl (kept ∙ sym at)
      | inr full ↦ inr (k, now, is, b, at, full_has_all l now b full)
    ]
  ]

  Outcome-IsSpared :
      (c : Call) (key : String) {l l' : Limiter floats}
      → key_of c ≢ key
      → Outcome c l l'
      → IsSpared c key l l'
  Outcome-IsSpared c key {l} {l'} apart idle = inl refl
  Outcome-IsSpared c key {l} {l'} apart (held b b' at) =
      inl (insert-apart (key_of c) key b' l.keys apart)
  Outcome-IsSpared c key {l} {l'} apart (refused k now is) = make_room-IsSpared c k now l key is
  Outcome-IsSpared c key {l} {l'} apart (added k now b' is free room) =
      elim (make_room-IsSpared c k now l key is) [
        | inl kept ↦ inl (insert-apart (key_of c) key b' (make_room floats now l).keys apart ∙ kept)
        | inr dropped ↦ inr dropped
      ]

  abbrev pub IsBounded : Limiter floats → Type 0
  IsBounded l = length l.keys ≤ l.capacity

  Outcome-IsBounded :
      (c : Call) {l l' : Limiter floats} → Outcome c l l' → IsBounded l → IsBounded l'
  Outcome-IsBounded c {l} {l'} idle small = small
  Outcome-IsBounded c {l} {l'} (held b b' at) small = elim (length-insert (key_of c) b' l.keys) [
    | inl (free, longer) ↦ absurd (ground arith)
    | inr (_, same) ↦ omega (arith, same, small)
  ]
  Outcome-IsBounded c {l} {l'} (refused k now is) small =
      let (shorter, same) = make_room-length now l in omega (arith, shorter, same, small)
  Outcome-IsBounded c {l} {l'} (added k now b' is free room) small =
      elim (length-insert (key_of c) b' (make_room floats now l).keys) [
        | inl (_, longer) ↦ omega (arith, longer, room)
        | inr (_, same) ↦ omega (arith, same, room)
      ]

  -- A request or the return of a token with one key leaves the bucket of every other key as it is, unless
  -- the tokens in it and what has come back by the time of the request are not less than the burst; so no
  -- flood of other keys takes away what a key has spent and not got back. And the keys that are held stay
  -- within the capacity.
  pub call_lem :
      (c : Call) (l : Limiter floats)
      → ((key : String) → key_of c ≢ key → IsSpared c key l (after_call c l))
        × (IsBounded l → IsBounded (after_call c l))
  call_lem c l = (
    λ key apart. Outcome-IsSpared c key apart (call-Outcome c l),
    Outcome-IsBounded c (call-Outcome c l),
  )
