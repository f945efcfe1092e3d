-- ===== src/Dag/Claimable.antt =====
-- The loop that collects tasks, and ClaimableSet (internal/task/task.go).
use heros_agent.Base.{
  ℕ, ◌≤◌, ◌≡◌, refl, Bool, true, false, some, List, [], ◌∷◌, String, Map, lookup, arith, ◌↔◌, inl,
  inr, Bool-cases,
}
use mathlib.Core.List.{Memᴰ}
use heros_agent.Errors.{Result, ok}
use heros_agent.Task.{Task}
use heros_agent.Task.States.{State, pending, ready, running}
use heros_agent.Dag.{
  Dag, ids, collect, dependencies_succeeded, may_be_claimed, unclaimed, claimable_set,
}
use heros_agent.Dag.Closed.{
  IsClosed, IsMet, dependencies_succeeded_total, dependencies_succeeded_sound,
  dependencies_succeeded_complete,
}
use heros_agent.Dag.Spread.{mem-ids→Has, Has→mem-ids}

-- What a list of collected tasks holds.
abbrev pub Collects : (Task → Result Bool) → Map Task → List String → List Task → Type 0
Collects keep tasks order ts =
    (t : Task)
    → Memᴰ t ts ↔ ((id : String) × Memᴰ id order × (lookup id tasks ≡ some t) × (keep t ≡ ok true))

module _ (keep : Task → Result Bool) (tasks : Map Task) where
  Collects-cons :
      (id : String) (order : List String) (u : Task) (more : List Task)
      → lookup id tasks ≡ some u
      → keep u ≡ ok true
      → Collects keep tasks order more
      → Collects keep tasks (id ∷ order) (u ∷ more)
  Collects-cons id order u more at kept rest t = (to, from)
    where
      to :
          Memᴰ t (u ∷ more)
          → (j : String) × Memᴰ j (id ∷ order) × (lookup j tasks ≡ some t) × (keep t ≡ ok true)
      to (Memᴰ.head e) = (id, Memᴰ.head refl, rw e at, rw e kept)
      to (Memᴰ.tail m) = let (j, mj, jt, kt) = (rest t).0 m in (j, Memᴰ.tail mj, jt, kt)

      from :
          (j : String) × Memᴰ j (id ∷ order) × (lookup j tasks ≡ some t) × (keep t ≡ ok true)
          → Memᴰ t (u ∷ more)
      from (j, Memᴰ.head e, jt, kt) = Memᴰ.head (ground arith)
      from (j, Memᴰ.tail m, jt, kt) = Memᴰ.tail ((rest t).1 (j, m, jt, kt))

  Collects-skip :
      (id : String) (order : List String) (u : Task) (more : List Task)
      → lookup id tasks ≡ some u
      → keep u ≡ ok false
      → Collects keep tasks order more
      → Collects keep tasks (id ∷ order) more
  Collects-skip id order u more at kept rest t = (to, from)
    where
      to :
          Memᴰ t more
          → (j : String) × Memᴰ j (id ∷ order) × (lookup j tasks ≡ some t) × (keep t ≡ ok true)
      to m = let (j, mj, jt, kt) = (rest t).0 m in (j, Memᴰ.tail mj, jt, kt)

      from :
          (j : String) × Memᴰ j (id ∷ order) × (lookup j tasks ≡ some t) × (keep t ≡ ok true)
          → Memᴰ t more
      from (j, Memᴰ.head e, jt, kt) = absurd (ground arith)
      from (j, Memᴰ.tail m, jt, kt) = (rest t).1 (j, m, jt, kt)

  -- Where every id has a task and every test answers, the loop returns the tasks that pass.
  pub collect_total :
      (order : List String)
      → ((id : String)
          → Memᴰ id order
          → (t : Task) × (lookup id tasks ≡ some t) × (b : Bool) × (keep t ≡ ok b))
      → (ts : List Task) × (collect keep tasks order ≡ ok ts) × Collects keep tasks order ts
  unfolding collect
  collect_total [] answers = ([], refl, λ t. (λ m. elim m [ ], λ (id, m, at, kept). elim m [ ]))
  collect_total (id ∷ order) answers =
      let (t, at, b, kept) = answers id (Memᴰ.head refl) in
      let (ts, run, holds) = collect_total order (λ j m. answers j (Memᴰ.tail m)) in
      elim (Bool-cases b) [
        | inl e ↦ (t ∷ ts, ground arith, Collects-cons id order t ts at (rw e at kept) holds)
        | inr e ↦ (ts, ground arith, Collects-skip id order t ts at (rw e at kept) holds)
      ]

-- Pending, ready, or running under a lease that is not live at `now`.
pub data IsUnclaimed (t : Task) (now : ℕ) : Type 0 where
  is_pending : t.state ≡ pending → IsUnclaimed t now
  is_ready : t.state ≡ ready → IsUnclaimed t now
  lease_over : t.state ≡ running → t.lease_expiry ≤ now → IsUnclaimed t now

unclaimed_sound :
    (s : State) (t : Task) (now : ℕ)
    → t.state ≡ s
    → unclaimed s t.lease_expiry now ≡ true
    → IsUnclaimed t now
unfolding unclaimed
unclaimed_sound pending t now e h = is_pending e
unclaimed_sound ready t now e h = is_ready e
unclaimed_sound running t now e h = lease_over e (ground arith)
unclaimed_sound _ t now e h = cc

unclaimed_complete :
    {t : Task} {now : ℕ} → IsUnclaimed t now → unclaimed t.state t.lease_expiry now ≡ true
unfolding unclaimed
unclaimed_complete (is_pending e) = ground arith
unclaimed_complete (is_ready e) = ground arith
unclaimed_complete (lease_over e l) = ground arith

may_be_claimed_iff :
    (d : Dag) (now : ℕ) (t : Task)
    → (may_be_claimed d now t ≡ ok true) ↔ (IsUnclaimed t now × IsMet d.tasks t)
unfolding may_be_claimed
may_be_claimed_iff d now t = (
  λ h. (
    unclaimed_sound t.state t now refl (ground arith),
    dependencies_succeeded_sound d t (ground arith),
  ),
  λ (free, met). rw (unclaimed_complete free) (dependencies_succeeded_complete d t met),
)

module _ (d : Dag) (closed : IsClosed d.tasks) where
  pub deps_answer :
      (id : String) (t : Task)
      → lookup id d.tasks ≡ some t
      → (b : Bool) × (dependencies_succeeded d t ≡ ok b)
  deps_answer id t at =
      dependencies_succeeded_total d t (closed.required id t at) (closed.contributory id t at)

  may_be_claimed_total :
      (now : ℕ) (id : String) (t : Task)
      → lookup id d.tasks ≡ some t
      → (b : Bool) × (may_be_claimed d now t ≡ ok b)
  unfolding may_be_claimed
  may_be_claimed_total now id t at =
      let (b, h) = deps_answer id t at in
      elim (Bool-cases (unclaimed t.state t.lease_expiry now)) [
        | inl e ↦ (b, rw e h)
        | inr e ↦ (false, rw e)
      ]

  -- On a closed graph ClaimableSet returns exactly the tasks that are pending, ready, or running under
  -- a lease that is over, and whose dependencies are met.
  pub claimable_set_lem :
      (now : ℕ)
      → (ts : List Task) × (claimable_set d now ≡ ok ts)
        × ((t : Task)
            → Memᴰ t ts ↔ (
                (id : String) × (lookup id d.tasks ≡ some t) × IsUnclaimed t now × IsMet d.tasks t))
  unfolding claimable_set
  claimable_set_lem now =
      let (ts, run, holds) = collect_total (may_be_claimed d now) d.tasks (ids d) (λ id m.
        let (t, at) = mem-ids→Has d id m in
        let (b, h) = may_be_claimed_total now id t at in (t, at, b, h)) in
      (
        ts,
        run,
        λ t. (
          λ m.
              let (id, mid, at, kept) = (holds t).0 m in
              let (free, met) = (may_be_claimed_iff d now t).0 kept in (id, at, free, met),
          λ (id, at, free, met).
              (holds t).1
                (id, Has→mem-ids d id (t, at), at, (may_be_claimed_iff d now t).1 (free, met)),
        ),
      )
