-- ===== src/Memory/Compressed.antt =====
-- What a summary that Compress of internal/memory/memory.go returns covers.
use heros_agent.Base.{
  ℕ, suc, ◌+◌, ◌≤◌, ◌<◌, leb, ◌≡◌, refl, sym, ◌∙◌, ap, subst, arith, true, Option, none, some, List,
  [], ◌∷◌, String, str_eq, eq_iff, length, sort_le, mem-sort_le, mem_of_sort_le, ◌↔◌, ◌⊎◌, ◌||◌,
  inl, inr, Bool-cases,
}
use mathlib.Core.List.{Memᴰ}
use mathlib.Core.List.Memᴰ
use heros_agent.Errors.{ok}
use heros_agent.Memory.{
  EpisodeKind, observation, decision, effect, failure, is_observation, is_decision, Episode,
  Summary, compressible, by_seq, check_run, fold, compress, last_seq,
}

-- Numbered one after the other, from this number on.
abbrev pub IsRun : ℕ → List Episode → Type 0
IsRun k [] = Unit
IsRun k (e ∷ es) = (e.seq ≡ k) × IsRun (suc k) es

-- Neither a failure nor an effect.
abbrev pub IsPlain : Episode → Type 0
IsPlain e = (e.kind ≡ observation) ⊎ (e.kind ≡ decision)

-- Of the goal besides.
abbrev pub IsFoldable : String → Episode → Type 0
IsFoldable goal_id e = (e.goal_id ≡ goal_id) × IsPlain e

compressible_iff : (e : Episode) → (compressible e ≡ true) ↔ IsPlain e
unfolding compressible
compressible_iff e = (λ h. of_kind e.kind h, λ plain. ground arith)
  where
    of_kind :
        (k : EpisodeKind)
        → is_observation k || is_decision k ≡ true
        → (k ≡ observation) ⊎ (k ≡ decision)
    of_kind observation h = inl refl
    of_kind decision h = inr refl
    of_kind effect h = absurd (ground arith)
    of_kind failure h = absurd (ground arith)

-- The summary covers these episodes, all of them and nothing else.
pub record IsCover (goal_id : String) (es : List Episode) (s : Summary) : Type 0 where
  pub whose : s.goal_id ≡ goal_id
  pub foldable : (e : Episode) → Memᴰ e es → IsFoldable goal_id e
  pub covered :
      (n : ℕ) → ((s.from_seq ≤ n) × (n ≤ s.to_seq)) ↔ ((e : Episode) × Memᴰ e es × (e.seq ≡ n))
  pub counted : s.from_seq + s.dropped ≡ suc s.to_seq

check_run-IsFoldable :
    (goal_id : String) (previous : Option ℕ) (es : List Episode)
    → check_run goal_id previous es ≡ ok tt
    → (e : Episode) → Memᴰ e es
    → IsFoldable goal_id e
unfolding check_run
check_run-IsFoldable goal_id previous [] h e m = elim m [ ]
check_run-IsFoldable goal_id previous (f ∷ fs) h e m = elim (Memᴰ.cases_cons m) [
  | inl same ↦
      subst (IsFoldable goal_id) (sym same)
        ((eq_iff f.goal_id goal_id).0 (ground arith), (compressible_iff f).0 (ground arith))
  | inr later ↦ check_run-IsFoldable goal_id (some f.seq) fs (ground arith) e later
]

check_run-IsRun :
    (goal_id : String) (before : ℕ) (es : List Episode)
    → check_run goal_id (some before) es ≡ ok tt
    → IsRun (suc before) es
unfolding check_run
check_run-IsRun goal_id before [] h = tt
check_run-IsRun goal_id before (e ∷ es) h =
    let next : e.seq ≡ suc before = ground arith in
    (next, subst (λ k. IsRun (suc k) es) next (check_run-IsRun goal_id e.seq es (ground arith)))

-- The numbers of a run are those from its first on, as many as it has episodes.
IsRun-covers :
    (k : ℕ) (es : List Episode)
    → IsRun k es
    → (n : ℕ) → ((k ≤ n) × (n < k + length es)) ↔ ((e : Episode) × Memᴰ e es × (e.seq ≡ n))
IsRun-covers k es run n = (found k es run, λ (e, m, at). bounded k es run e m at)
  where
    found :
        (k : ℕ) (es : List Episode)
        → IsRun k es
        → (k ≤ n) × (n < k + length es)
        → (e : Episode) × Memᴰ e es × (e.seq ≡ n)
    found k [] run (low, high) = absurd (omega arith)
    found k (e ∷ es) (at, run) (low, high) = elim (Bool-cases (leb (suc k) n)) [
      | inl later ↦
          let (f, m, is) = found (suc k) es run (ground arith, omega arith) in (f, Memᴰ.tail m, is)
      | inr here ↦ (e, Memᴰ.head refl, ground arith)
    ]

    bounded :
        (k : ℕ) (es : List Episode)
        → IsRun k es
        → (e : Episode) → Memᴰ e es
        → e.seq ≡ n
        → (k ≤ n) × (n < k + length es)
    bounded k [] run e m at = elim m [ ]
    bounded k (f ∷ fs) (first, run) e m at = elim (Memᴰ.cases_cons m) [
      | inl same ↦
          let is : e.seq ≡ f.seq = ap (λ (x : Episode). x.seq) same in
          (omega (arith, is, first, at), omega (arith, is, first, at))
      | inr later ↦
          let (low, high) = bounded (suc k) fs run e later at in
          (omega (arith, low), omega (arith, high))
    ]

last_seq-IsRun :
    (k : ℕ) (e : Episode) (es : List Episode)
    → IsRun k (e ∷ es)
    → suc (last_seq e es) ≡ k + length (e ∷ es)
last_seq-IsRun k e [] (at, run) = omega arith
last_seq-IsRun k e (f ∷ fs) (at, run) =
    let rest = last_seq-IsRun (suc k) f fs run in omega (arith, rest)

check_run-rest :
    (goal_id : String) (e : Episode) (es : List Episode)
    → check_run goal_id none (e ∷ es) ≡ ok tt
    → check_run goal_id (some e.seq) es ≡ ok tt
unfolding check_run
check_run-rest goal_id e es h = ground arith

fold-IsCover :
    (goal_id : String) (es : List Episode) (content : String) (now : ℕ) (s : Summary)
    → fold goal_id es content now ≡ ok s
    → IsCover goal_id es s
unfolding fold
fold-IsCover goal_id [] content now s h = absurd (ground arith)
fold-IsCover goal_id (e ∷ es) content now s h =
    let checked : check_run goal_id none (e ∷ es) ≡ ok tt = ground arith in
    let made : Summary = record {
      goal_id = goal_id;
      id = 0;
      from_seq = e.seq;
      to_seq = last_seq e es;
      content = content;
      dropped = length (e ∷ es);
      at = now;
    } in
    let same : made ≡ s = ground arith in
    let rest : check_run goal_id (some e.seq) es ≡ ok tt = check_run-rest goal_id e es checked in
    let run : IsRun e.seq (e ∷ es) = (refl, check_run-IsRun goal_id e.seq es rest) in
    let end = last_seq-IsRun e.seq e es run in
    subst (IsCover goal_id (e ∷ es)) same (record {
      whose = refl;
      foldable = check_run-IsFoldable goal_id none (e ∷ es) checked;
      covered = λ n.
          let (found, bounded) = IsRun-covers e.seq (e ∷ es) run n in
          (
            λ (low, high). found (low, omega (arith, end, high)),
            λ there. let (low, high) = bounded there in (low, omega (arith, end, high)),
          );
      counted = sym end;
    })

sorted_run : (k : ℕ) (es : List Episode) → IsRun k es → sort_le by_seq es ≡ es
sorted_run k [] run = refl
sorted_run k (e ∷ []) run = refl
sorted_run k (e ∷ f ∷ fs) (at, (next, run)) =
    let rest = sorted_run (suc k) (f ∷ fs) (next, run) in
    let low : by_seq e f ≡ true = ground arith in rw rest (rw low refl)

run-checked :
    (goal_id : String) (k : ℕ) (es : List Episode)
    → IsRun (suc k) es
    → ((e : Episode) → Memᴰ e es → IsFoldable goal_id e)
    → check_run goal_id (some k) es ≡ ok tt
unfolding check_run
run-checked goal_id k [] run good = refl
run-checked goal_id k (e ∷ es) (at, run) good =
    let (whose, folds) = good e (Memᴰ.head refl) in
    let rest : check_run goal_id (some e.seq) es ≡ ok tt =
      run-checked goal_id e.seq es (subst (λ j. IsRun (suc j) es) (sym at) run)
        (λ f m. good f (Memᴰ.tail m)) in
    let folds_e = (compressible_iff e).1 folds in ground (arith, eq_iff e.goal_id goal_id)

run-folds :
    (goal_id : String) (e : Episode) (rest : List Episode) (content : String) (now : ℕ)
    → IsRun e.seq (e ∷ rest)
    → ((f : Episode) → Memᴰ f (e ∷ rest) → IsFoldable goal_id f)
    → (s : Summary) × (fold goal_id (e ∷ rest) content now ≡ ok s)
unfolding fold check_run
run-folds goal_id e rest content now (at, run) good =
    let (whose, folds) = good e (Memᴰ.head refl) in
    let same : str_eq e.goal_id goal_id ≡ true = (eq_iff e.goal_id goal_id).1 whose in
    let checked = run-checked goal_id e.seq rest run (λ f m. good f (Memᴰ.tail m)) in
    rw (same, (compressible_iff e).1 folds, checked) (_, refl)

-- Compress takes every run of episodes of the goal without a failure or an effect. And a summary that
-- it returns, whatever it was given, covers these episodes: they are of the goal, none is a failure or
-- an effect, the range of the summary has exactly their sequence numbers, without a gap and without
-- one twice, and their number is the one that it reports.
pub compress_lem :
    (goal_id : String) (es : List Episode) (content : String) (now : ℕ)
    → ((e : Episode) (rest : List Episode)
        → es ≡ e ∷ rest
        → IsRun e.seq es
        → ((f : Episode) → Memᴰ f es → IsFoldable goal_id f)
        → (s : Summary) × (compress goal_id es content now ≡ ok s))
      × ((s : Summary) → compress goal_id es content now ≡ ok s → IsCover goal_id es s)
unfolding compress fold
compress_lem goal_id es content now = (
  λ e rest made run good.
      let sorted : sort_le by_seq es ≡ e ∷ rest = sorted_run e.seq es run ∙ made in
      rw sorted (
        run-folds goal_id e rest content now (subst (IsRun e.seq) made run)
          (λ f m. good f (subst (Memᴰ f) (sym made) m))),
  λ s h.
      let cover = fold-IsCover goal_id (sort_le by_seq es) content now s h in
      record {
        whose = cover.whose;
        foldable = λ e m. cover.foldable e (mem-sort_le by_seq es e m);
        covered = λ n.
            let (found, bounded) = cover.covered n in
            (
              λ within. let (e, m, at) = found within in (e, mem_of_sort_le by_seq es e m, at),
              λ (e, m, at). bounded (e, mem-sort_le by_seq es e m, at),
            );
        counted = cover.counted;
      },
)
