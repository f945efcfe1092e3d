-- ===== src/Dag/Spread.antt =====
-- PropagateFailure (internal/task/task.go) as a whole, against its specification in Dag/Doom.
use heros_agent.Base.{
  ℕ, suc, ◌+◌, ◌≡◌, refl, ◌∙◌, true, false, some, String, Map, lookup, arith, inl, inr, length,
  lookup_of_Memᴰ, Memᴰ-keys, keys,
}
use mathlib.Core.List.{Memᴰ}
use heros_agent.Errors.{ok}
use heros_agent.Task.{Task}
use heros_agent.Task.States.{State, blocked, terminal}
use heros_agent.Dag.{Dag, ids, breaks, block, propagate_failure}
use heros_agent.Dag.Sort.{mem-sort, mem_of_sort}
use heros_agent.Dag.Closed.{Has, IsClosed}
use heros_agent.Dag.Doom.{
  IsDoomed, by_end, by_doomed, IsDoomed-open, untouched, doomed, Fates, broken_dependency-none,
}
use heros_agent.Dag.Propagate.{open_count, open_count-le, IsSettled, rounds_total}

-- Every task is as it was, or was doomed and is blocked; every doomed task is blocked; the count is
-- the number of tasks that have ended since.
pub record Spreads (before after : Map Task) (count : ℕ) : Type 0 where
  pub fates : Fates before after
  pub complete :
      (k : String)
      → IsDoomed before k
      → (t : Task) × (lookup k after ≡ some t) × (t.state ≡ blocked)
  pub counted : count + open_count after ≡ open_count before

pub Has→mem-ids : (d : Dag) (k : String) → Has d.tasks k → Memᴰ k (ids d)
unfolding ids
Has→mem-ids d k (t, at) = mem-sort k (keys d.tasks) (Memᴰ-keys k t d.tasks at)

pub mem-ids→Has : (d : Dag) (k : String) → Memᴰ k (ids d) → Has d.tasks k
unfolding ids
mem-ids→Has d k m = lookup_of_Memᴰ k d.tasks (mem_of_sort k (keys d.tasks) m)

-- A task with a broken dependency cannot have settled.
settled-contradiction :
    (after : Map Task) (k dep : String) (t u : Task)
    → IsSettled after k
    → lookup k after ≡ some t
    → terminal t.state ≡ false
    → Memᴰ dep t.depends_on
    → lookup dep after ≡ some u
    → breaks u.state ≡ true
    → ⊥
settled-contradiction after k dep t u (v, at', why) at o m du bu =
    let same : v ≡ t = ground arith in
    elim why [
      | inl ended ↦ ground arith
      | inr quiet ↦
          let none_broken =
            broken_dependency-none after t.depends_on dep u (rw same at quiet) m du in
          cc
    ]

breaks-terminal : (s : State) → breaks s ≡ true → terminal s ≡ true
breaks-terminal s h = ground arith

module _ {before after : Map Task} (fates : Fates before after)
    (settled : (k : String) → Has before k → IsSettled after k) where
  blocked_of_doomed_dep :
      (k dep : String) (t u : Task)
      → lookup k before ≡ some t
      → terminal t.state ≡ false
      → Memᴰ dep t.depends_on
      → lookup dep after ≡ some u
      → breaks u.state ≡ true
      → (v : Task) × (lookup k after ≡ some v) × (v.state ≡ blocked)
  blocked_of_doomed_dep k dep t u at o m du bu = elim (fates k) [
    | doomed v d ds was doom is ↦ (block v d ds, is, refl)
    | untouched same ↦
        absurd (settled-contradiction after k dep t u (settled k (t, at)) (same ∙ at) o m du bu)
  ]

  broken_stays :
      (dep : String) (u : Task)
      → lookup dep before ≡ some u
      → breaks u.state ≡ true
      → lookup dep after ≡ some u
  broken_stays dep u du bu = elim (fates dep) [
    | untouched same ↦ same ∙ du
    | doomed v d ds was doom is ↦
        let (w, dw, ow) = IsDoomed-open doom in
        let same : w ≡ u = ground arith in absurd (ground (arith, breaks-terminal u.state bu))
  ]

  doomed-blocked :
      {k : String}
      → IsDoomed before k
      → (t : Task) × (lookup k after ≡ some t) × (t.state ≡ blocked)
  doomed-blocked {k} (by_end t u dep at o m du bu) =
      blocked_of_doomed_dep k dep t u at o m (broken_stays dep u du bu) bu
  doomed-blocked {k} (by_doomed t dep at o m doom) =
      let (u, du, su) = doomed-blocked doom in
      blocked_of_doomed_dep k dep t u at o m du (rw su refl)

-- On a closed graph PropagateFailure returns; it leaves every task as it was, or blocks it, and it
-- blocks exactly the tasks that a required dependency doomed. It returns how many.
pub propagate_failure_lem :
    (d : Dag)
    → IsClosed d.tasks
    → (d' : Dag) × (count : ℕ) × (propagate_failure d ≡ ok (d', count))
      × (d'.goal_id ≡ d.goal_id)
      × Spreads d.tasks d'.tasks count
unfolding propagate_failure
propagate_failure_lem d closed =
    let (after, count, run, done) =
      rounds_total closed (suc (length d.tasks)) (ids d) d.tasks 0 (λ k. untouched refl)
        (mem-ids→Has d) (omega (arith, open_count-le d.tasks)) in
    (
      record d { tasks = after },
      count,
      ground arith,
      refl,
      record {
        fates = done.fates;
        complete = λ k doom.
            doomed-blocked done.fates (λ j has. done.settled j (Has→mem-ids d j has)) doom;
        counted = omega (arith, done.counted);
      },
    )
