-- ===== src/Dag/Stalls.antt =====
-- ReadySet and Stalled (internal/task/task.go), and what a stalled graph is.
use heros_agent.Base.{
  ℕ, ◌≡◌, refl, Bool, true, false, not, ◌||◌, some, List, [], ◌∷◌, String, lookup, arith, ◌⊎◌, ◌↔◌,
  inl, inr, Bool-cases, values, mem-values, subst,
}
use mathlib.Core.List.{Memᴰ}
use heros_agent.Errors.{ok}
use heros_agent.Task.{Task}
use heros_agent.Task.States.{pending, ready, terminal, same_state}
use heros_agent.Dag.{
  Dag, ids, may_be_ready, ready_set, claimable_set, stalled, stalled_from, in_flight,
}
use heros_agent.Dag.Closed.{
  IsClosed, IsMet, dependencies_succeeded_sound, dependencies_succeeded_complete,
}
use heros_agent.Dag.Spread.{mem-ids→Has, Has→mem-ids}
use heros_agent.Dag.Claimable.{
  collect_total, deps_answer, IsUnclaimed, is_pending, is_ready, lease_over, claimable_set_lem,
}

-- Work remains, none of it is in flight, and none of it can start.
pub record IsStuck (d : Dag) : Type 0 where
  pub remains : (t : Task) × Memᴰ t (values d.tasks) × (terminal t.state ≡ false)
  pub idle : (t : Task) → Memᴰ t (values d.tasks) → in_flight t.state ≡ false
  pub unready :
      (id : String) (t : Task)
      → lookup id d.tasks ≡ some t
      → (t.state ≡ pending) ⊎ (t.state ≡ ready)
      → ¬ IsMet d.tasks t

stalled_from-idle :
    (ts : List Task) (remaining : Bool)
    → stalled_from ts remaining ≡ true
    → (t : Task) → Memᴰ t ts
    → in_flight t.state ≡ false
unfolding stalled_from
stalled_from-idle [] remaining h t m = elim m [ ]
stalled_from-idle (u ∷ ts) remaining h t (Memᴰ.head e) = rw e (ground arith)
stalled_from-idle (u ∷ ts) remaining h t (Memᴰ.tail m) =
    stalled_from-idle ts (not (terminal u.state) || remaining) (ground arith) t m

stalled_from-remains :
    (ts : List Task) (remaining : Bool)
    → stalled_from ts remaining ≡ true
    → (remaining ≡ true) ⊎ ((t : Task) × Memᴰ t ts × (terminal t.state ≡ false))
unfolding stalled_from
stalled_from-remains [] remaining h = inl h
stalled_from-remains (u ∷ ts) remaining h =
    elim (stalled_from-remains ts (not (terminal u.state) || remaining) (ground arith)) [
      | inr (t, m, o) ↦ inr (t, Memᴰ.tail m, o)
      | inl some_left ↦ elim (Bool-cases (terminal u.state)) [
        | inl ended ↦ inl (ground arith)
        | inr o ↦ inr (u, Memᴰ.head refl, o)
      ]
    ]

stalled_from_complete :
    (ts : List Task) (remaining : Bool)
    → ((t : Task) → Memᴰ t ts → in_flight t.state ≡ false)
    → (remaining ≡ true) ⊎ ((t : Task) × Memᴰ t ts × (terminal t.state ≡ false))
    → stalled_from ts remaining ≡ true
unfolding stalled_from
stalled_from_complete [] remaining idle (inl h) = h
stalled_from_complete [] remaining idle (inr (t, m, o)) = elim m [ ]
stalled_from_complete (u ∷ ts) remaining idle (inl h) = rw (idle u (Memᴰ.head refl)) (
    stalled_from_complete ts (not (terminal u.state) || remaining) (λ t m. idle t (Memᴰ.tail m))
      (inl (ground arith)))
stalled_from_complete (u ∷ ts) remaining idle (inr (t, Memᴰ.head e, o)) =
    rw (idle u (Memᴰ.head refl)) (
      stalled_from_complete ts (not (terminal u.state) || remaining) (λ t' m. idle t' (Memᴰ.tail m))
        (inl (ground arith)))
stalled_from_complete (u ∷ ts) remaining idle (inr (t, Memᴰ.tail m, o)) =
    rw (idle u (Memᴰ.head refl)) (
      stalled_from_complete ts (not (terminal u.state) || remaining) (λ t' n. idle t' (Memᴰ.tail n))
        (inr (t, m, o)))

empty_of_no_member : (ts : List Task) → ((t : Task) → ¬ Memᴰ t ts) → ts ≡ []
empty_of_no_member [] h = refl
empty_of_no_member (t ∷ ts) h = absurd (h t (Memᴰ.head refl))

module _ (d : Dag) (closed : IsClosed d.tasks) where
  may_be_ready_total :
      (id : String) (t : Task) → lookup id d.tasks ≡ some t → (b : Bool) × (may_be_ready d t ≡ ok b)
  unfolding may_be_ready
  may_be_ready_total id t at =
      let (b, h) = deps_answer d closed id t at in
      elim (Bool-cases (same_state t.state pending || same_state t.state ready)) [
        | inl e ↦ (b, rw e h)
        | inr e ↦ (false, rw e)
      ]

  -- On a closed graph ReadySet returns exactly the pending and ready tasks whose dependencies are met.
  pub ready_set_lem :
      (ts : List Task) × (ready_set d ≡ ok ts)
      × ((t : Task)
          → Memᴰ t ts ↔ (
              (id : String) × (lookup id d.tasks ≡ some t)
              × ((t.state ≡ pending) ⊎ (t.state ≡ ready))
              × IsMet d.tasks t))
  unfolding ready_set may_be_ready
  ready_set_lem =
      let (ts, run, holds) = collect_total (may_be_ready d) d.tasks (ids d) (λ id m.
        let (t, at) = mem-ids→Has d id m in
        let (b, h) = may_be_ready_total id t at in (t, at, b, h)) in
      (
        ts,
        run,
        λ t. (
          λ m.
              let (id, mid, at, kept) = (holds t).0 m in
              (id, at, ground arith, dependencies_succeeded_sound d t (ground arith)),
          λ (id, at, free, met). (holds t).1 (
            id,
            Has→mem-ids d id (t, at),
            at,
            ground (arith, dependencies_succeeded_complete d t met),
          ),
        ),
      )

  none_ready-unready :
      ready_set d ≡ ok []
      → (id : String) (t : Task) → lookup id d.tasks ≡ some t
      → (t.state ≡ pending) ⊎ (t.state ≡ ready)
      → ¬ IsMet d.tasks t
  none_ready-unready none_ready id t at free met =
      let (ts, run, holds) = ready_set_lem in
      let same : ts ≡ [] = cc in
      let m : Memᴰ t [] = subst (Memᴰ t) same ((holds t).1 (id, at, free, met)) in elim m [ ]

  unready-none_ready : IsStuck d → ready_set d ≡ ok []
  unready-none_ready stuck =
      let (ts, run, holds) = ready_set_lem in
      let empty : ts ≡ [] =
        empty_of_no_member ts
          (λ t m. let (id, at, free, met) = (holds t).0 m in stuck.unready id t at free met) in
      rw (← empty) run

  -- Stalled answers true exactly on a stuck graph, if the graph is closed.
  pub stalled_iff : (stalled d ≡ ok true) ↔ IsStuck d
  unfolding stalled
  stalled_iff = (to, from)
    where
      none_able : stalled d ≡ ok true → ready_set d ≡ ok []
      none_able h = ground arith

      walk : stalled d ≡ ok true → stalled_from (values d.tasks) false ≡ true
      walk h = ground arith

      to : stalled d ≡ ok true → IsStuck d
      to h = record {
        remains = elim (stalled_from-remains (values d.tasks) false (walk h)) [
          | inl e ↦ absurd (ground arith)
          | inr r ↦ r
        ];
        idle = stalled_from-idle (values d.tasks) false (walk h);
        unready = none_ready-unready (none_able h);
      }

      from : IsStuck d → stalled d ≡ ok true
      from stuck = ground (
        arith,
        unready-none_ready stuck,
        stalled_from_complete (values d.tasks) false stuck.idle (inr stuck.remains),
      )

  -- A graph that Stalled reports offers nothing to claim at any instant, though work remains: no task
  -- is in flight, so no lease can run out, and none can start.
  pub stalled-claimable_set : stalled d ≡ ok true → (now : ℕ) → claimable_set d now ≡ ok []
  stalled-claimable_set h now =
      let stuck = stalled_iff.0 h in
      let (ts, run, holds) = claimable_set_lem d closed now in
      let empty : ts ≡ [] =
        empty_of_no_member ts
          (λ t m. let (id, at, free, met) = (holds t).0 m in not_free stuck now id t at met free) in
      rw (← empty) run
    where
      not_free :
          IsStuck d
          → (now : ℕ) (id : String) (t : Task) → lookup id d.tasks ≡ some t
          → IsMet d.tasks t
          → ¬ IsUnclaimed t now
      not_free stuck now id t at met (is_pending e) = stuck.unready id t at (inl e) met
      not_free stuck now id t at met (is_ready e) = stuck.unready id t at (inr e) met
      not_free stuck now id t at met (lease_over e l) =
          let busy = stuck.idle t (mem-values id t d.tasks at) in ground arith
