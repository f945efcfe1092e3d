-- ===== src/Store/Sound.antt =====
-- Renew, Complete, Release and the task graphs of internal/store/store.go.
use heros_agent.Base.{
  ℕ, ◌+◌, ◌≡◌, refl, sym, ◌∙◌, ap, subst, true, some, List, String, lookup, insert, arith, inl, inr,
  Bool-cases, str_eq, lookup-insert,
}
use heros_agent.Base.Text.{Text}
use heros_agent.Errors.{Result, ok, err, ◌>>=◌, >>=-eq-ok}
use heros_agent.Task.{Task, transition}
use heros_agent.Task.States.{State, ready, running, failed, same_state}
use heros_agent.Task.Moves.{◌⟶◌, transition_iff, terminal_iff}
use heros_agent.Dag.{Dag}
use heros_agent.Dag.Closed.{IsMet}
use heros_agent.Dag.Spread.{propagate_failure_lem}
use heros_agent.Dag.Evolve.{Keeps, IsSound, IsSound-insert, IsSound-spread, needs_met, LeaseOk}
use heros_agent.Store.{Memory, put_dag, put_task, commit}
use heros_agent.Store.Leases.{held, renew, complete, release, spread, settle}
use heros_agent.Store.Holders.{Holds, held_iff}

abbrev pub AllSound : Memory → Type 0
AllSound m = (id : String) (d : Dag) → lookup id m.dags ≡ some d → IsSound d.tasks

pub AllSound-put_dag :
    (m : Memory) (goal_id : String) (d : Dag)
    → AllSound m
    → IsSound d.tasks
    → AllSound (put_dag m goal_id d)
AllSound-put_dag m goal_id d all sound id d' at = elim (Bool-cases (str_eq goal_id id)) [
  | inl e ↦ let same : d' ≡ d = ground (arith, lookup-insert goal_id id d m.dags) in rw same sound
  | inr e ↦ all id d' (ground (arith, lookup-insert goal_id id d m.dags))
]

-- A method that replaces a graph keeps the store sound if the new graph is.
pub AllSound-commit :
    {A : Type 0} (m : Memory) (goal_id : String) (r : Result (Dag × A))
    → AllSound m
    → ((d : Dag) (a : A) → r ≡ ok (d, a) → IsSound d.tasks)
    → AllSound (commit m goal_id r).0
AllSound-commit m goal_id (ok (d, a)) all sound = AllSound-put_dag m goal_id d all (sound d a refl)
AllSound-commit m goal_id (err e) all sound = all

-- A held task is running or has ended, so a legal move of it starts at running.
held-running :
    {m : Memory} {goal_id id worker : String} {now : ℕ} {d : Dag} {t : Task} {next : State}
    → IsSound d.tasks
    → Holds m goal_id id worker now d t
    → t.state ⟶ next
    → t.state ≡ running
held-running {t} {next} sound h edge = elim (sound.lease _ t h.task (omega (arith, h.live))) [
  | inl e ↦ e
  | inr ended ↦ absurd (ground (arith, (terminal_iff t.state).1 (next, edge)))
]

-- Writing one task back under its id.
pub IsSound-put_task :
    (d : Dag) (id : String) (t t' : Task)
    → IsSound d.tasks
    → lookup id d.tasks ≡ some t
    → Keeps t t'
    → (needs_met t'.state ≡ true → IsMet d.tasks t)
    → LeaseOk t'
    → IsSound (put_task d t').tasks
IsSound-put_task d id t t' sound at keeps met lease =
    let key : t'.id ≡ id = keeps.id ∙ sound.closed.keyed id t at in
    subst (λ k. IsSound (insert k t' d.tasks)) (sym key)
      (IsSound-insert id t t' sound at keeps met lease)

-- A move out of running, under which the task keeps what it depends on.
pub IsSound-move :
    {m : Memory} {goal_id id worker : String} {now : ℕ} (d : Dag) (t t' : Task)
    → IsSound d.tasks
    → Holds m goal_id id worker now d t
    → t.state ≡ running
    → t'.id ≡ t.id
    → t'.depends_on ≡ t.depends_on
    → t'.contributes ≡ t.contributes
    → LeaseOk t'
    → IsSound (put_task d t').tasks
IsSound-move {id} d t t' sound h run same_id deps contributes lease =
    IsSound-put_task d id t t' sound h.task
      (record {
        id = same_id;
        depends_on = deps;
        contributes = contributes;
        ended = λ e. absurd (ground arith);
      })
      (λ need. sound.met id t h.task (rw run refl)) lease

pub renew-AllSound :
    (goal_id id worker : String) (lease now : ℕ) (m : Memory)
    → AllSound m
    → AllSound (renew goal_id id worker lease now m).0
unfolding renew
renew-AllSound goal_id id worker lease now m all = AllSound-commit m goal_id _ all λ d' a r.
    let ((d, t), hold, made) =
      >>=-eq-ok (held m goal_id id worker now)
        (λ p. ok (put_task p.0 (record p.1 { lease_expiry = now + lease; updated_at = now }), tt))
        r in
    let h = (held_iff m goal_id id worker now d t).0 hold in
    let sound = all goal_id d h.graph in
    let t' : Task = record t { lease_expiry = now + lease; updated_at = now } in
    let new : d' ≡ put_task d t' = cc in
    rw new (
      IsSound-put_task d id t t' sound h.task
        (record { id = refl; depends_on = refl; contributes = refl; ended = λ e. refl })
        (λ need. sound.met id t h.task need) (λ l. sound.lease id t h.task (omega (arith, h.live))))

pub release-AllSound :
    (goal_id id worker : String) (now : ℕ) (m : Memory)
    → AllSound m
    → AllSound (release goal_id id worker now m).0
unfolding release
release-AllSound goal_id id worker now m all = AllSound-commit m goal_id _ all λ d' a r.
    let ((d, t), hold, r1) =
      >>=-eq-ok (held m goal_id id worker now)
        (λ p. transition p.1 ready now >>= λ t'.
          ok (put_task p.0 (record t' { leased_by = ""; lease_expiry = 0 }), tt))
        r in
    let (t1, step, made) =
      >>=-eq-ok (transition t ready now)
        (λ t'. ok (put_task d (record t' { leased_by = ""; lease_expiry = 0 }), tt)) r1 in
    let h = (held_iff m goal_id id worker now d t).0 hold in
    let sound = all goal_id d h.graph in
    let (edge, moved) = (transition_iff t t1 ready now).0 step in
    let run = held-running sound h edge in
    let t' : Task = record t1 { leased_by = ""; lease_expiry = 0 } in
    let new : d' ≡ put_task d t' = cc in
    rw new (
      IsSound-move d t t' sound h run (ap (λ (x : Task). x.id) moved)
        (ap (λ (x : Task). x.depends_on) moved) (ap (λ (x : Task). x.contributes) moved)
        (λ l. elim l [ ]))

spread-IsSound :
    (next : State) (d d' : Dag) → IsSound d.tasks → spread next d ≡ ok d' → IsSound d'.tasks
unfolding spread
spread-IsSound next d d' sound h = elim (Bool-cases (same_state next failed)) [
  | inr e ↦ let same : d' ≡ d = ground arith in rw same sound
  | inl e ↦
      let (d1, n, run, goal, spreads) = propagate_failure_lem d sound.closed in
      let same : d' ≡ d1 = ground arith in rw same (IsSound-spread spreads sound)
]

pub complete-AllSound :
    (goal_id id worker : String) (next : State) (result : List ℕ) (failure : Text) (now : ℕ)
    (m : Memory)
    → AllSound m
    → AllSound (complete goal_id id worker next result failure now m).0
unfolding complete
complete-AllSound goal_id id worker next result failure now m all =
    AllSound-commit m goal_id _ all λ d' a r.
      let ((d, t), hold, r1) =
        >>=-eq-ok (held m goal_id id worker now)
          (λ p. transition p.1 next now >>= λ t'.
            spread next (put_task p.0 (settle t' result failure)) >>= λ d'. ok (d', tt))
          r in
      let (t1, step, r2) =
        >>=-eq-ok (transition t next now)
          (λ t'. spread next (put_task d (settle t' result failure)) >>= λ d'. ok (d', tt)) r1 in
      let (d1, spreads, made) =
        >>=-eq-ok (spread next (put_task d (settle t1 result failure))) (λ d'. ok (d', tt)) r2 in
      let h = (held_iff m goal_id id worker now d t).0 hold in
      let sound = all goal_id d h.graph in
      let (edge, moved) = (transition_iff t t1 next now).0 step in
      let run = held-running sound h edge in
      let t' : Task = settle t1 result failure in
      let new : d' ≡ d1 = cc in
      rw new (
        spread-IsSound next (put_task d t') d1
          (IsSound-move d t t' sound h run (ap (λ (x : Task). x.id) moved)
            (ap (λ (x : Task). x.depends_on) moved) (ap (λ (x : Task). x.contributes) moved)
            (λ l. elim l [ ]))
          spreads)
