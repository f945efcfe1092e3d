-- ===== src/Store/SoundPersons.antt =====
-- Claim, Decide and the task graphs of internal/store/store.go.
use heros_agent.Base.{
  ℕ, ◌≡◌, refl, ◌∙◌, ap, Bool, true, false, some, [], ◌∷◌, String, lookup, arith, inl,
  if◌then◌else◌,
}
use heros_agent.Base.Text.{verbatim}
use heros_agent.Errors.{Result, ok, ◌>>=◌, >>=-eq-ok}
use heros_agent.Task.{Task, transition}
use heros_agent.Task.States.{State, ready, awaiting_approval, cancelled, terminal}
use heros_agent.Task.Moves.{transition_iff, moved_to}
use heros_agent.Dag.{Dag}
use heros_agent.Dag.Claimable.{IsUnclaimed, is_pending, is_ready, lease_over}
use heros_agent.Dag.Spread.{propagate_failure_lem}
use heros_agent.Dag.Evolve.{IsSound, IsSound-spread}
use heros_agent.Store.{Memory, put_task, find_dag}
use heros_agent.Store.Leases.{claim, find_task, goal_absent}
use heros_agent.Store.Persons.{decide, answer, check_parked, decide_task}
use heros_agent.Store.Holders.{find_dag-ok, find_task-ok}
use heros_agent.Store.Claims.{
  Claimed, no_goal, goal_not_running, no_dag, nothing, took, claim_lem, leased,
}
use heros_agent.Store.Sound.{AllSound, AllSound-put_dag, AllSound-commit, IsSound-put_task}

Unclaimed-open : {t : Task} {now : ℕ} → IsUnclaimed t now → terminal t.state ≡ false
Unclaimed-open (is_pending e) = ground arith
Unclaimed-open (is_ready e) = ground arith
Unclaimed-open (lease_over e l) = ground arith

Claimed-AllSound :
    {m : Memory} {goal_id worker : String} {lease now : ℕ} {r : Memory × Result Task}
    → AllSound m
    → Claimed m goal_id worker lease now r
    → AllSound r.0
unfolding leased
Claimed-AllSound all (no_goal e) = all
Claimed-AllSound all (goal_not_running g e idle) = all
Claimed-AllSound all (no_dag g e run none_there) = all
Claimed-AllSound all (nothing d dd h) = all
Claimed-AllSound {m} {goal_id} {worker} {lease} {now} all (took g d id t gg run dd at free met) =
    let sound = all goal_id d dd in
    AllSound-put_dag m goal_id (put_task d (leased t worker lease now)) all (
      IsSound-put_task d id t (leased t worker lease now) sound at
        (record {
          id = refl;
          depends_on = refl;
          contributes = refl;
          ended = λ e. absurd (ground (arith, Unclaimed-open free));
        })
        (λ need. met) (λ l. inl refl))

pub claim-AllSound :
    (goal_id worker : String) (lease now : ℕ) (m : Memory)
    → AllSound m
    → AllSound (claim goal_id worker lease now m).0
claim-AllSound goal_id worker lease now m all =
    Claimed-AllSound all (claim_lem m goal_id worker lease now (λ id d at. (all id d at).closed))

answer-IsSound :
    (d d' : Dag) (t : Task) (approve : Bool) (a : Unit {0})
    → IsSound (put_task d (record t { approved = true })).tasks
    → IsSound (put_task d (record t { approved = false; failure = verbatim "declined" ∷ [] })).tasks
    → answer d t approve ≡ ok (d', a)
    → IsSound d'.tasks
unfolding answer
answer-IsSound d d' t true a yes_ no_ h =
    let same : d' ≡ put_task d (record t { approved = true }) = cc in rw same yes_
answer-IsSound d d' t false a yes_ no_ h =
    let (d1, n, run, goal, spreads) =
      propagate_failure_lem
        (put_task d (record t { approved = false; failure = verbatim "declined" ∷ [] }))
        no_.closed in
    let same : d' ≡ d1 = ground arith in rw same (IsSound-spread spreads no_)

parked-IsSound :
    (d : Dag) (id : String) (t t' : Task)
    → IsSound d.tasks
    → lookup id d.tasks ≡ some t
    → t.state ≡ awaiting_approval
    → t'.id ≡ t.id
    → t'.depends_on ≡ t.depends_on
    → t'.contributes ≡ t.contributes
    → t'.lease_expiry ≡ t.lease_expiry
    → IsSound (put_task d t').tasks
parked-IsSound d id t t' sound at parked same_id deps contributes lease =
    IsSound-put_task d id t t' sound at
      (record {
        id = same_id;
        depends_on = deps;
        contributes = contributes;
        ended = λ e. absurd (ground arith);
      })
      (λ need. sound.met id t at (rw parked refl))
      (λ l. absurd (ground (arith, sound.lease id t at (rw lease at l))))

check_parked-ok : (t p : Task) → check_parked t ≡ ok p → (p ≡ t) × (t.state ≡ awaiting_approval)
unfolding check_parked
check_parked-ok t p h = ground arith

decide_task-IsSound :
    (d d' : Dag) (id : String) (t : Task) (approve : Bool) (now : ℕ) (a : Unit {0})
    → IsSound d.tasks
    → lookup id d.tasks ≡ some t
    → decide_task d t approve now ≡ ok (d', a)
    → IsSound d'.tasks
unfolding decide_task
decide_task-IsSound d d' id t approve now a sound at h =
    let next : State = if approve then ready else cancelled in
    let (p, check, r1) =
      >>=-eq-ok (check_parked t) (λ p. transition p next now >>= λ t'. answer d t' approve) h in
    let (t', step, r2) = >>=-eq-ok (transition p next now) (λ t'. answer d t' approve) r1 in
    let (same, parked) = check_parked-ok t p check in
    let made : t' ≡ moved_to t next now =
      ((transition_iff p t' next now).0 step).1 ∙ ap (λ (x : Task). moved_to x next now) same in
    let put : (u : Task)
        → u.id ≡ t'.id
        → u.depends_on ≡ t'.depends_on
        → u.contributes ≡ t'.contributes
        → u.lease_expiry ≡ t'.lease_expiry
        → IsSound (put_task d u).tasks =
      λ u i dd c l.
        parked-IsSound d id t u sound at parked (i ∙ ap (λ (x : Task). x.id) made)
          (dd ∙ ap (λ (x : Task). x.depends_on) made) (c ∙ ap (λ (x : Task). x.contributes) made)
          (l ∙ ap (λ (x : Task). x.lease_expiry) made) in
    answer-IsSound d d' t' approve a (put (record t' { approved = true }) refl refl refl refl)
      (put (record t' { approved = false; failure = verbatim "declined" ∷ [] }) refl refl refl refl)
      r2

pub decide-AllSound :
    (goal_id id : String) (approve : Bool) (now : ℕ) (m : Memory)
    → AllSound m
    → AllSound (decide goal_id id approve now m).0
unfolding decide
decide-AllSound goal_id id approve now m all = AllSound-commit m goal_id _ all λ d' a r.
    let (d, graph, r1) =
      >>=-eq-ok (find_dag m goal_id goal_absent)
        (λ d. find_task d id >>= λ t. decide_task d t approve now) r in
    let (t, task, r2) = >>=-eq-ok (find_task d id) (λ t. decide_task d t approve now) r1 in
    decide_task-IsSound d d' id t approve now a
      (all goal_id d (find_dag-ok m goal_id goal_absent d graph)) (find_task-ok d id t task) r2
