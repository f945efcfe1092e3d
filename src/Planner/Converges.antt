-- ===== src/Planner/Converges.antt =====
-- internal/planner/plans.go and planner.go: replanning an improvement comes to an end.
use heros_agent.Base.{
  ◌≡◌, refl, sym, ap, ◌∙◌, subst, arith, ℕ, suc, zero, some, List, [], ◌∷◌, ◌++◌, String, lookup,
  inl, inr, ◌⊎◌, Option-cases,
}
use mathlib.Core.List.{Memᴰ}
use mathlib.Core.List.Memᴰ
use heros_agent.Errors.{ok}
use heros_agent.Task.{Task}
use heros_agent.Dag.{Dag}
use heros_agent.Dag.Closed.{Has}
use heros_agent.Dag.Ranked.{ids_of, mem_of_ids}
use heros_agent.Goal.{Goal}
use heros_agent.Planner.{Registry, planner_for, revise_from, revise}
use heros_agent.Planner.FanIn.{ids_of-append}
use heros_agent.Planner.Plans.{
  Finding, chain, chains, decode_findings, propose_all, replan_improve, succeeded_of_kind,
  planner_improve, assess_axis,
}

-- What is in the graph is passed over.
revise_from_skips :
    (g : Goal) (d : Dag) (ts added : List Task)
    → ((id : String) → Memᴰ id (ids_of ts) → Has d.tasks id)
    → revise_from g d ts added ≡ ok added
unfolding revise_from
revise_from_skips g d [] added all = refl
revise_from_skips g d (t ∷ ts) added all =
    let (old, at) = all t.id (Memᴰ.head refl) in
    let rest = revise_from_skips g d ts added (λ id m. all id (Memᴰ.tail m)) in ground arith

-- What the loop has added stays.
revise_from-keeps :
    (g : Goal) (d : Dag) (ts added out : List Task)
    → revise_from g d ts added ≡ ok out
    → (t : Task) → Memᴰ t added
    → Memᴰ t out
unfolding revise_from
revise_from-keeps g d [] added out h t m =
    let same : added ≡ out = ground arith in subst (Memᴰ t) same m
revise_from-keeps g d (u ∷ ts) added out h t m = elim (Option-cases (lookup u.id d.tasks)) [
  | inr (old, at) ↦ revise_from-keeps g d ts added out (ground arith) t m
  | inl new ↦
      revise_from-keeps g d ts (added ++ u ∷ []) out (ground arith) t (Memᴰ.append_left (u ∷ []) m)
]

-- Whatever was proposed is in the graph or was added.
revise_from-covers :
    (g : Goal) (d : Dag) (ts added out : List Task)
    → revise_from g d ts added ≡ ok out
    → (t : Task) → Memᴰ t ts
    → Has d.tasks t.id ⊎ Memᴰ t out
unfolding revise_from
revise_from-covers g d [] added out h t m = elim m [ ]
revise_from-covers g d (u ∷ ts) added out h t m = elim (Option-cases (lookup u.id d.tasks)) [
  | inr (old, at) ↦ elim (Memᴰ.cases_cons m) [
    | inl e ↦ inl (old, subst (λ (x : Task). lookup x.id d.tasks ≡ some old) (sym e) at)
    | inr later ↦ revise_from-covers g d ts added out (ground arith) t later
  ]
  | inl new ↦
      let rest : revise_from g d ts (added ++ u ∷ []) ≡ ok out = ground arith in
      elim (Memᴰ.cases_cons m) [
        | inl e ↦ inr (
            revise_from-keeps g d ts (added ++ u ∷ []) out rest t
              (Memᴰ.append_right added (Memᴰ.head e)))
        | inr later ↦ revise_from-covers g d ts (added ++ u ∷ []) out rest t later
      ]
]

-- The ids of the proposals do not depend on when they are made.
chains_same_ids :
    (g : Goal) (now later : ℕ) (assessed : String) (fs : List Finding) (i : ℕ)
    → ids_of (chains g now assessed fs i) ≡ ids_of (chains g later assessed fs i)
unfolding chains chain
chains_same_ids g now later assessed [] i = refl
chains_same_ids g now later assessed (f ∷ fs) i =
    let rest = chains_same_ids g now later assessed fs (suc i) in ground arith

module _ (unmarshal : List ℕ → List Finding) where
  propose_all_same_ids :
      (g : Goal) (now later : ℕ) (ts : List Task)
      → ids_of (propose_all unmarshal g now ts) ≡ ids_of (propose_all unmarshal g later ts)
  unfolding propose_all
  propose_all_same_ids g now later [] = refl
  propose_all_same_ids g now later (t ∷ ts) =
      let fs = decode_findings unmarshal t in
      ids_of-append (chains g now t.id fs zero) (propose_all unmarshal g now ts)
      ∙ (λ i. chains_same_ids g now later t.id fs zero i ++ propose_all_same_ids g now later ts i)
      ∙ sym (ids_of-append (chains g later t.id fs zero) (propose_all unmarshal g later ts))

  -- Once the proposals of an improvement are in the graph, Revise adds nothing more, at any later time,
  -- as long as the graph has what it had and what was added, and the axes that were assessed with
  -- success are the same with the same results.
  pub revise_converges :
      (r : Registry) (g : Goal) (d d' : Dag) (now later : ℕ) (added : List Task)
      → planner_for r g.intent ≡ some (planner_improve unmarshal)
      → revise r g d now ≡ ok added
      → ((id : String) → Has d.tasks id → Has d'.tasks id)
      → ((t : Task) → Memᴰ t added → Has d'.tasks t.id)
      → succeeded_of_kind d' assess_axis ≡ succeeded_of_kind d assess_axis
      → revise r g d' later ≡ ok []
  unfolding revise replan_improve
  revise_converges r g d d' now later added chosen done kept taken same =
      let before = propose_all unmarshal g now (succeeded_of_kind d assess_axis) in
      let after = propose_all unmarshal g later (succeeded_of_kind d' assess_axis) in
      let first : revise_from g d before [] ≡ ok added = ground arith in
      let ids : ids_of before ≡ ids_of after =
        propose_all_same_ids g now later (succeeded_of_kind d assess_axis)
        ∙ ap (λ ts. ids_of (propose_all unmarshal g later ts)) (sym same) in
      let all : (id : String) → Memᴰ id (ids_of after) → Has d'.tasks id = λ id m.
        let (t, there, e) = mem_of_ids before id (subst (Memᴰ id) (sym ids) m) in
        subst (Has d'.tasks) e (elim (revise_from-covers g d before [] added first t there) [
          | inl old ↦ kept t.id old
          | inr new ↦ taken t new
        ]) in
      let again = revise_from_skips g d' after [] all in ground arith
