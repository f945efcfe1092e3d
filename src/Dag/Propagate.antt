-- ===== src/Dag/Propagate.antt =====
-- The loops of PropagateFailure (internal/task/task.go), against the specification in Dag/Doom.
use heros_agent.Base.{
  ℕ, zero, suc, ◌+◌, ◌≤◌, ◌<◌, ◌≡◌, refl, sym, ◌∙◌, true, false, none, some, List, [], ◌∷◌, String,
  Map, lookup, insert, arith, ◌⊎◌, inl, inr, Bool-cases, eq_iff, length, if◌then◌else◌, subst,
}
use mathlib.Core.List.{Memᴰ}
use heros_agent.Errors.{ok}
use heros_agent.Task.{Task}
use heros_agent.Task.States.{terminal}
use heros_agent.Dag.{broken_dependency, block, Pass, visit_all, rounds}
use heros_agent.Dag.Closed.{Has, AllKnown, IsClosed}
use heros_agent.Dag.Doom.{
  untouched, doomed, Fates, Visited, rests, blocks, visit_total, Visited-Fates,
}

-- How many tasks have not ended.
unfoldable pub open_count : Map Task → ℕ
open_count [] = 0
open_count ((k, t) ∷ m) = if terminal t.state then open_count m else suc (open_count m)

open_count-insert :
    (k : String) (t v : Task) (m : Map Task)
    → lookup k m ≡ some t
    → terminal t.state ≡ false
    → terminal v.state ≡ true
    → suc (open_count (insert k v m)) ≡ open_count m
unfolding open_count lookup insert
open_count-insert k t v [] at o e = absurd (ground arith)
open_count-insert k t v ((j, w) ∷ m) at o e = ground (arith, eq_iff j k, open_count-insert k t v m)

pub open_count-le : (m : Map Task) → open_count m ≤ length m
unfolding open_count
open_count-le [] = omega arith
open_count-le ((k, t) ∷ m) = ground (arith, open_count-le m)

abbrev pub IsSettled : Map Task → String → Type 0
IsSettled tasks id =
    (t : Task) × (lookup id tasks ≡ some t)
    × ((terminal t.state ≡ true) ⊎ (broken_dependency tasks t.depends_on ≡ ok none))

IsSettled-cons :
    (tasks : Map Task) (id : String) (order : List String)
    → IsSettled tasks id
    → ((j : String) → Memᴰ j order → IsSettled tasks j)
    → (j : String) → Memᴰ j (id ∷ order)
    → IsSettled tasks j
IsSettled-cons tasks id order h rest j (Memᴰ.head e) = rw e h
IsSettled-cons tasks id order h rest j (Memᴰ.tail m) = rest j m

blocked_is_not_quiet : (q r : Pass) → q ≡ r → q.changed ≡ false → r.changed ≡ true → ⊥
blocked_is_not_quiet q r same still moved = cc

module _ {before : Map Task} (closed : IsClosed before) where
  Has-now : (now : Map Task) (k : String) → Fates before now → Has before k → Has now k
  Has-now now k fates (t, at) = elim (fates k) [
    | untouched same ↦ (t, same ∙ at)
    | doomed v dep ds was doom is ↦ (block v dep ds, is)
  ]

  known-now :
      (now : Map Task) (k : String) (t : Task)
      → Fates before now
      → lookup k now ≡ some t
      → AllKnown now t.depends_on
  known-now now k t fates at dep m = elim (fates k) [
    | untouched same ↦ Has-now now dep fates (closed.required k t (sym same ∙ at) dep m)
    | doomed v d ds was doom is ↦ Has-now now dep fates (
        closed.required k v was dep
          (let e : t.depends_on ≡ v.depends_on = ground arith in rw (← e) m))
  ]

  -- What a round over some ids has done.
  pub record Swept (p : Pass) (order : List String) (q : Pass) : Type 0 where
    pub fates : Fates before q.tasks
    pub counted : q.count + open_count q.tasks ≡ p.count + open_count p.tasks
    pub shrinks : open_count q.tasks ≤ open_count p.tasks
    pub advances : q.changed ≡ true → (p.changed ≡ true) ⊎ (open_count q.tasks < open_count p.tasks)
    pub quiet : q.changed ≡ false → (q ≡ p) × ((id : String) → Memᴰ id order → IsSettled p.tasks id)

  Swept-cons :
      (p r q : Pass) (id : String) (order : List String)
      → Visited p id r
      → Swept r order q
      → Swept p (id ∷ order) q
  Swept-cons p r q id order (rests t same at why) s =
      let s' : Swept p order q = subst (λ x. Swept x order q) same s in
      record {
        fates = s'.fates;
        counted = s'.counted;
        shrinks = s'.shrinks;
        advances = s'.advances;
        quiet = λ e. ((s'.quiet e).0, IsSettled-cons p.tasks id order (t, at, why) (s'.quiet e).1);
      }
  Swept-cons p r q id order (blocks t u dep ds at open_ m du bu made) s =
      let fewer = open_count-insert id t (block t dep ds) p.tasks at open_ refl in
      let s' : Swept
          (record {
            tasks = insert id (block t dep ds) p.tasks;
            count = p.count + 1;
            changed = true;
          })
          order q =
        subst (λ x. Swept x order q) made s in
      record {
        fates = s'.fates;
        counted = omega (arith, s'.counted, fewer);
        shrinks = omega (arith, s'.shrinks, fewer);
        advances = λ e. inr (omega (arith, s'.shrinks, fewer));
        quiet = λ e. absurd (blocked_is_not_quiet q _ (s'.quiet e).0 e refl);
      }

  visit_all_total :
      (p : Pass) (order : List String)
      → Fates before p.tasks
      → ((id : String) → Memᴰ id order → Has before id)
      → (q : Pass) × (visit_all p order ≡ ok q) × Swept p order q
  unfolding visit_all
  visit_all_total p [] fates present = (
    p,
    refl,
    record {
      fates = fates;
      counted = refl;
      shrinks = omega arith;
      advances = λ e. inl e;
      quiet = λ e. (refl, λ id m. elim m [ ]);
    },
  )
  visit_all_total p (id ∷ order) fates present =
      let (t, at) = Has-now p.tasks id fates (present id (Memᴰ.head refl)) in
      let (r, step, visited) = visit_total p id t at (known-now p.tasks id t fates at) in
      let (q, run, swept) =
        visit_all_total r order (Visited-Fates id visited fates) (λ j m. present j (Memᴰ.tail m)) in
      (q, rw step run, Swept-cons p r q id order visited swept)

  -- What the whole loop has done.
  pub record Propagated (tasks after : Map Task) (start count : ℕ) (order : List String)
      : Type 0 where
    pub fates : Fates before after
    pub counted : count + open_count after ≡ start + open_count tasks
    pub settled : (id : String) → Memᴰ id order → IsSettled after id

  Propagated-quiet :
      (tasks : Map Task) (start : ℕ) (order : List String) (q : Pass)
      → Swept (record { tasks = tasks; count = start; changed = false }) order q
      → q.changed ≡ false
      → Propagated tasks q.tasks start q.count order
  Propagated-quiet tasks start order q s still =
      let (same, settled) = s.quiet still in
      record { fates = s.fates; counted = s.counted; settled = λ id m. rw same (settled id m) }

  -- A round that changed something leaves fewer open tasks, so fuel above their number is enough.
  pub rounds_total :
      (fuel : ℕ) (order : List String) (tasks : Map Task) (start : ℕ)
      → Fates before tasks
      → ((id : String) → Memᴰ id order → Has before id)
      → open_count tasks < fuel
      → (after : Map Task) × (count : ℕ) × (rounds fuel order tasks start ≡ ok (after, count))
        × Propagated tasks after start count order
  unfolding rounds
  rounds_total zero order tasks start fates present enough = elim enough [ ]
  rounds_total (suc fuel) order tasks start fates present enough =
      let (q, run, swept) =
        visit_all_total (record { tasks = tasks; count = start; changed = false }) order fates
          present in
      elim (Bool-cases q.changed) [
        | inr still ↦
            (q.tasks, q.count, ground arith, Propagated-quiet tasks start order q swept still)
        | inl moved ↦
            let fewer : open_count q.tasks < open_count tasks = elim (swept.advances moved) [
              | inl e ↦ absurd (ground arith)
              | inr l ↦ l
            ] in
            let (after, count, rest, done) =
              rounds_total fuel order q.tasks q.count swept.fates present (omega arith) in
            (
              after,
              count,
              ground arith,
              record {
                fates = done.fates;
                counted = omega (arith, done.counted, swept.counted);
                settled = done.settled;
              },
            )
      ]
