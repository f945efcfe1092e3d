-- ===== src/Planner/FanIn.antt =====
-- internal/planner/plans.go: the plan of Assess and of Compare, a task for each axis and one that
-- depends on them all.
use heros_agent.Base.{
  ◌≡◌, ◌≢◌, refl, sym, ap, ◌∙◌, subst, arith, ℕ, true, false, List, [], ◌∷◌, ◌++◌, String, str_eq,
  if◌then◌else◌, inl, inr, str_eq-false, eq_iff, append-nil,
}
use heros_agent.Base.Decimal.{join_cancel}
use heros_agent.Base.Int64.{pos}
use mathlib.Core.List.{Memᴰ}
use mathlib.Core.List.Memᴰ
use text.Mathlib.Text.{starts_with}
use text.Mathlib.TextPositions.{starts_with-append}
use heros_agent.Errors.{ok, >>-eq-ok}
use heros_agent.Task.{Task, require_idempotency, effect_bearing_kind}
use heros_agent.Dag.Ranked.{Distinct, ids_of, IsRanked}
use heros_agent.Goal.{Goal}
use heros_agent.Planner.{all_keyed}
use heros_agent.Planner.Plans.{new_task, axes_of, axis_id, axis_tasks, axis_ids, fan_in}

pub ids_of-append : (ts us : List Task) → ids_of (ts ++ us) ≡ ids_of ts ++ ids_of us
ids_of-append [] us = refl
ids_of-append (t ∷ ts) us = ap (λ l. t.id ∷ l) (ids_of-append ts us)

ids_of-axis_tasks :
    (g : Goal) (now : ℕ) (names : List String) → ids_of (axis_tasks g now names) ≡ axis_ids names
ids_of-axis_tasks g now [] = refl
ids_of-axis_tasks g now (a ∷ names) = ap (λ l. axis_id a ∷ l) (ids_of-axis_tasks g now names)

mem_of_axis_ids :
    (names : List String) (k : String)
    → Memᴰ k (axis_ids names)
    → (a : String) × Memᴰ a names × (k ≡ axis_id a)
mem_of_axis_ids [] k m = elim m [ ]
mem_of_axis_ids (a ∷ names) k (Memᴰ.head e) = (a, Memᴰ.head refl, e)
mem_of_axis_ids (a ∷ names) k (Memᴰ.tail m) =
    let (b, there, e) = mem_of_axis_ids names k m in (b, Memᴰ.tail there, e)

Distinct-axis_ids : (names : List String) → Distinct names → Distinct (axis_ids names)
Distinct-axis_ids [] apart = tt
Distinct-axis_ids (a ∷ names) (first, rest) = (
  λ m.
      let (b, there, e) = mem_of_axis_ids names (axis_id a) m in
      first (subst (λ x. Memᴰ x names) (sym (join_cancel "assess-" a b e)) there),
  Distinct-axis_ids names rest,
)

Distinct-last :
    (xs : List String) (y : String) → Distinct xs → ¬ Memᴰ y xs → Distinct (xs ++ y ∷ [])
Distinct-last [] y apart new = ((λ m. elim m [ ]), tt)
Distinct-last (x ∷ xs) y (first, rest) new = (
  λ m. elim (Memᴰ.append_cases xs m) [
    | inl there ↦ first there
    | inr at_end ↦ elim (Memᴰ.cases_cons at_end) [
      | inl e ↦ new (Memᴰ.head (sym e))
      | inr nowhere ↦ elim nowhere [ ]
    ]
  ],
  Distinct-last xs y rest (λ m. new (Memᴰ.tail m)),
)

-- The task of an axis has no dependency.
axis_task_alone :
    (g : Goal) (now : ℕ) (names : List String) (t : Task)
    → Memᴰ t (axis_tasks g now names)
    → t.depends_on ++ t.contributes ≡ []
axis_task_alone g now [] t m = elim m [ ]
axis_task_alone g now (a ∷ names) t (Memᴰ.head e) =
    ap (λ (x : Task). x.depends_on ++ x.contributes) e
axis_task_alone g now (a ∷ names) t (Memᴰ.tail m) = axis_task_alone g now names t m

-- An id that is none of an axis.
abbrev pub Apart : String → Type 0
Apart id = starts_with id "assess-" ≡ false

axis_id-Apart : (id a : String) → Apart id → axis_id a ≢ id
axis_id-Apart id a apart e =
    let begins : starts_with (axis_id a) "assess-" ≡ true = starts_with-append "assess-" a in
    let same : starts_with (axis_id a) "assess-" ≡ starts_with id "assess-" =
      ap (λ s. starts_with s "assess-") e in
    absurd (ground arith)

module _ (id kind : String) (g : Goal) (now : ℕ) (apart : Apart id) where
  abbrev pub last : Task
  last = new_task g id kind (pos 0) now (axis_ids (axes_of g))

  abbrev pub rank : String → ℕ
  rank k = if str_eq k id then 1 else 0

  ids_of-fan_in : ids_of (fan_in id kind g now) ≡ axis_ids (axes_of g) ++ id ∷ []
  ids_of-fan_in =
      ids_of-append (axis_tasks g now (axes_of g)) (last ∷ [])
      ∙ ap (λ l. l ++ id ∷ []) (ids_of-axis_tasks g now (axes_of g))

  -- The only dependencies are those of the last task, on the tasks of the axes.
  dep_of_last :
      (t : Task) (dep : String)
      → Memᴰ t (fan_in id kind g now)
      → Memᴰ dep (t.depends_on ++ t.contributes)
      → (t ≡ last) × Memᴰ dep (axis_ids (axes_of g))
  dep_of_last t dep m md = elim (Memᴰ.append_cases (axis_tasks g now (axes_of g)) m) [
    | inl there ↦ elim (subst (Memᴰ dep) (axis_task_alone g now (axes_of g) t there) md) [ ]
    | inr at_end ↦ elim (Memᴰ.cases_cons at_end) [
      | inr nowhere ↦ elim nowhere [ ]
      | inl e ↦ (
        e,
        subst (Memᴰ dep)
            (ap (λ (x : Task). x.depends_on ++ x.contributes) e ∙ append-nil (axis_ids (axes_of g)))
            md,
      )
    ]
  ]

  pub fan_in-IsRanked : Distinct (axes_of g) → IsRanked rank (fan_in id kind g now)
  fan_in-IsRanked distinct = record {
    distinct = subst Distinct (sym ids_of-fan_in) (
        Distinct-last (axis_ids (axes_of g)) id (Distinct-axis_ids (axes_of g) distinct) (λ m.
          let (a, there, e) = mem_of_axis_ids (axes_of g) id m in
          axis_id-Apart id a apart (sym e)));
    known = λ t m dep md.
        subst (Memᴰ dep) (sym ids_of-fan_in)
          (Memᴰ.append_left (id ∷ []) (dep_of_last t dep m md).1);
    below = λ t m dep md.
        let (e, there) = dep_of_last t dep m md in
        let (a, _, is) = mem_of_axis_ids (axes_of g) dep there in
        let low = str_eq-false dep id (λ same. axis_id-Apart id a apart (sym is ∙ same)) in
        let at : t.id ≡ id = ap (λ (x : Task). x.id) e in ground (arith, eq_iff t.id id);
  }

  pub axis_tasks-keyed : (names : List String) → all_keyed (axis_tasks g now names) ≡ ok tt
  unfolding all_keyed require_idempotency effect_bearing_kind
  axis_tasks-keyed [] = refl
  axis_tasks-keyed (a ∷ names) = axis_tasks-keyed names

pub all_keyed-append :
    (ts us : List Task) → all_keyed ts ≡ ok tt → all_keyed us ≡ ok tt → all_keyed (ts ++ us) ≡ ok tt
unfolding all_keyed
all_keyed-append [] us h k = k
all_keyed-append (t ∷ ts) us h k =
    let (first, rest) = >>-eq-ok (require_idempotency t) (all_keyed ts) h in
    let later = all_keyed-append ts us rest k in ground arith
