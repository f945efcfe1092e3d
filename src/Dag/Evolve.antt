-- ===== src/Dag/Evolve.antt =====
-- How a task graph of internal/task/task.go may change under the methods of the store, and when it is
-- well-formed.
use heros_agent.Base.{
  ℕ, ◌<◌, ◌≡◌, refl, sym, ◌∙◌, Bool, true, false, Option, none, some, String, Map, lookup, insert,
  arith, ◌⊎◌, inl, inr, Bool-cases, str_eq, str_eq-true, lookup-insert_self, lookup-insert_ne,
  subst, ap,
}
use heros_agent.Task.{Task}
use heros_agent.Task.States.{State, ready, running, awaiting_approval, terminal}
use heros_agent.Dag.{block}
use heros_agent.Dag.Closed.{IsClosed, IsMet}
use heros_agent.Dag.Doom.{untouched, doomed, IsDoomed-open}
use heros_agent.Dag.Spread.{Spreads}

-- The same task, whose state has not changed if it had ended.
pub record Keeps (t t' : Task) : Type 0 where
  pub id : t'.id ≡ t.id
  pub depends_on : t'.depends_on ≡ t.depends_on
  pub contributes : t'.contributes ≡ t.contributes
  pub ended : terminal t.state ≡ true → t'.state ≡ t.state

pub data Evolved : Option Task → Option Task → Type 0 where
  absent : Evolved none none
  moved : {t t' : Task} → Keeps t t' → Evolved (some t) (some t')

abbrev pub Evolves : Map Task → Map Task → Type 0
Evolves before after = (k : String) → Evolved (lookup k before) (lookup k after)

pub Evolved-from :
    {a b : Option Task} {t : Task}
    → Evolved a b
    → a ≡ some t
    → (t' : Task) × (b ≡ some t') × Keeps t t'
Evolved-from absent e = absurd (ground arith)
Evolved-from {t} (moved {t = u} {t' = u'} k) e =
    (u', refl, subst (λ x. Keeps x u') (ground arith) k)

pub Evolved-to :
    {a b : Option Task} {t' : Task}
    → Evolved a b
    → b ≡ some t'
    → (t : Task) × (a ≡ some t) × Keeps t t'
Evolved-to absent e = absurd (ground arith)
Evolved-to {t'} (moved {t = u} {t' = u'} k) e = (u, refl, subst (λ x. Keeps u x) (ground arith) k)

pub Evolved-refl : (a : Option Task) → Evolved a a
Evolved-refl none = absent
Evolved-refl (some t) =
    moved (record { id = refl; depends_on = refl; contributes = refl; ended = λ e. refl })

pub Evolves-insert :
    (k : String) (t t' : Task) (m : Map Task)
    → lookup k m ≡ some t
    → Keeps t t'
    → Evolves m (insert k t' m)
Evolves-insert k t t' m at keeps j = elim (Bool-cases (str_eq k j)) [
  | inl e ↦
      subst (λ i. Evolved (lookup i m) (lookup i (insert k t' m))) (str_eq-true k j e)
        (rw (at, lookup-insert_self) (moved keeps))
  | inr e ↦ rw (lookup-insert_ne k j t' m e) (Evolved-refl (lookup j m))
]

abbrev pub needs_met : State → Bool
needs_met ready = true
needs_met running = true
needs_met awaiting_approval = true
needs_met _ = false

-- A dependency that was met stays met.
IsMet-Evolves :
    {before after : Map Task} {t t' : Task}
    → Evolves before after
    → Keeps t t'
    → IsMet before t
    → IsMet after t'
IsMet-Evolves {t} {t'} moves keeps met = record {
  required = λ dep m.
      let (u, at, done) = met.required dep (rw keeps.depends_on at m) in
      let (u', at', ku) = Evolved-from (moves dep) at in (u', at', ku.ended (rw done refl) ∙ done);
  contributory = λ dep m.
      let (u, at, over) = met.contributory dep (rw keeps.contributes at m) in
      let (u', at', ku) = Evolved-from (moves dep) at in (u', at', rw (ku.ended over) over);
}

IsClosed-Evolves :
    {before after : Map Task} → Evolves before after → IsClosed before → IsClosed after
IsClosed-Evolves {before} {after} moves closed = record {
  keyed =
      λ k t' at'. let (t, at, keeps) = Evolved-to (moves k) at' in keeps.id ∙ closed.keyed k t at;
  required = λ k t' at' dep m.
      let (t, at, keeps) = Evolved-to (moves k) at' in
      let (u, du) = closed.required k t at dep (rw keeps.depends_on at m) in
      let (u', du', ku) = Evolved-from (moves dep) du in (u', du');
  contributory = λ k t' at' dep m.
      let (t, at, keeps) = Evolved-to (moves k) at' in
      let (u, du) = closed.contributory k t at dep (rw keeps.contributes at m) in
      let (u', du', ku) = Evolved-from (moves dep) du in (u', du');
}

-- Only a running task, or one that has ended, has a lease on record.
abbrev pub LeaseOk : Task → Type 0
LeaseOk t = 0 < t.lease_expiry → (t.state ≡ running) ⊎ (terminal t.state ≡ true)

-- A well-formed graph: closed, what is ready, running or parked has its dependencies met, and only
-- running or ended tasks have a lease.
pub record IsSound (tasks : Map Task) : Type 0 where
  pub closed : IsClosed tasks
  pub met :
      (k : String) (t : Task) → lookup k tasks ≡ some t → needs_met t.state ≡ true → IsMet tasks t
  pub lease : (k : String) (t : Task) → lookup k tasks ≡ some t → LeaseOk t

pub IsSound-Evolves :
    {before after : Map Task}
    → Evolves before after
    → IsSound before
    → ((k : String) (t t' : Task)
        → lookup k before ≡ some t
        → lookup k after ≡ some t'
        → (needs_met t'.state ≡ true → IsMet before t) × LeaseOk t')
    → IsSound after
IsSound-Evolves moves sound why = record {
  closed = IsClosed-Evolves moves sound.closed;
  met = λ k t' at' need.
      let (t, at, keeps) = Evolved-to (moves k) at' in
      IsMet-Evolves moves keeps ((why k t t' at at').0 need);
  lease = λ k t' at'. let (t, at, keeps) = Evolved-to (moves k) at' in (why k t t' at at').1;
}

-- One task moves, and its new state needs no dependency that was not met.
pub IsSound-insert :
    {m : Map Task} (k : String) (t t' : Task)
    → IsSound m
    → lookup k m ≡ some t
    → Keeps t t'
    → (needs_met t'.state ≡ true → IsMet m t)
    → LeaseOk t'
    → IsSound (insert k t' m)
IsSound-insert {m} k t t' sound at keeps why lease =
    IsSound-Evolves (Evolves-insert k t t' m at keeps) sound λ j u u' ju ju'.
      elim (Bool-cases (str_eq k j)) [
        | inl e ↦
            let same : k ≡ j = str_eq-true k j e in
            let old : u ≡ t = ground (arith, ap (λ (x : String). lookup x m) same) in
            let new : u' ≡ t' = ground (
              arith,
              ap (λ (x : String). lookup x (insert k t' m)) same,
              lookup-insert_self k t' m,
            ) in
            (λ need. rw old (why (rw new at need)), rw new lease)
        | inr e ↦
            let was : lookup j m ≡ some u' = sym (lookup-insert_ne k j t' m e) ∙ ju' in
            let same : u' ≡ u = ground arith in
            (λ need. sound.met j u ju (rw same at need), sound.lease j u' was)
      ]

-- What PropagateFailure does to a graph is such a change.
pub Evolves-spread :
    {before after : Map Task} {n : ℕ} → Spreads before after n → Evolves before after
Evolves-spread {before} {after} s k = elim (s.fates k) [
  | untouched same ↦ rw same (Evolved-refl (lookup k before))
  | doomed t dep ds was doom is ↦
      let (u, at, o) = IsDoomed-open doom in
      let same : u ≡ t = ground arith in
      rw (was, is)
        (moved (record {
          id = refl;
          depends_on = refl;
          contributes = refl;
          ended = λ e. absurd (ground arith);
        }))
]

pub IsSound-spread :
    {before after : Map Task} {n : ℕ} → Spreads before after n → IsSound before → IsSound after
IsSound-spread {before} {after} s sound = IsSound-Evolves (Evolves-spread s) sound λ k t t' at at'.
    elim (s.fates k) [
      | untouched same ↦
          let was : lookup k before ≡ some t' = sym same ∙ at' in
          let e : t' ≡ t = ground arith in
          (λ need. sound.met k t at (rw e at need), sound.lease k t' was)
      | doomed u dep ds was doom is ↦
          let e : t' ≡ block u dep ds = ground arith in
          (λ need. absurd (ground arith), λ l. inr (rw e refl))
    ]
