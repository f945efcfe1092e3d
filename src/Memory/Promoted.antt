-- ===== src/Memory/Promoted.antt =====
-- internal/memory/memory.go: what Promote makes a claim of.
use heros_agent.Base.{
  ℕ, leb, ◌||◌, ◌≡◌, refl, sym, ◌∙◌, ap, subst, arith, true, List, [], ◌∷◌, String, str_eq, eq_iff,
  sort_le, mem-sort_le, mem_of_sort_le, ◌↔◌, ◌⊎◌, inl, inr,
}
use mathlib.Core.List.{Memᴰ}
use mathlib.Core.List.Memᴰ
use heros_agent.Errors.{Error, Result, ok, err}
use heros_agent.Memory.{Episode, Knowledge, cite, promote, is_observation, is_effect}

-- An observation or an effect of the goal.
abbrev pub IsEvidence : String → Episode → Type 0
IsEvidence goal_id e = (e.goal_id ≡ goal_id) × (is_observation e.kind || is_effect e.kind ≡ true)

Result-cases : {A : Type 0} (r : Result A) → ((e : Error) × (r ≡ err e)) ⊎ ((a : A) × (r ≡ ok a))
Result-cases (err e) = inl (e, refl)
Result-cases (ok a) = inr (a, refl)

cited_later :
    (goal_id : String) (f : Episode) (fs : List Episode) (seqs : List ℕ)
    → cite goal_id (f ∷ fs) ≡ ok seqs
    → (later : List ℕ) × (cite goal_id fs ≡ ok later)
unfolding cite
cited_later goal_id f fs seqs h = elim (Result-cases (cite goal_id fs)) [
  | inr found ↦ found
  | inl (e, failed) ↦ absurd (ground arith)
]

cite-IsEvidence :
    (goal_id : String) (es : List Episode) (seqs : List ℕ)
    → cite goal_id es ≡ ok seqs
    → ((e : Episode) → Memᴰ e es → IsEvidence goal_id e)
      × ((n : ℕ) → Memᴰ n seqs ↔ ((e : Episode) × Memᴰ e es × (e.seq ≡ n)))
unfolding cite
cite-IsEvidence goal_id [] seqs h =
    let none_cited : [] ≡ seqs = ground arith in
    (
      λ e m. elim m [ ],
      λ n. (λ m. elim (subst (Memᴰ n) (sym none_cited) m) [ ], λ (e, m, at). elim m [ ]),
    )
cite-IsEvidence goal_id (f ∷ fs) seqs h =
    let (later, same) = cited_later goal_id f fs seqs h in
    let first : IsEvidence goal_id f =
      ((eq_iff f.goal_id goal_id).0 (ground arith), ground arith) in
    let is : f.seq ∷ later ≡ seqs = ground arith in
    let (good, cited) = cite-IsEvidence goal_id fs later same in
    (
      λ e m. elim (Memᴰ.cases_cons m) [
        | inl e_is ↦ subst (IsEvidence goal_id) (sym e_is) first
        | inr there ↦ good e there
      ],
      λ n. (
        λ m. elim (Memᴰ.cases_cons (subst (Memᴰ n) (sym is) m)) [
          | inl at ↦ (f, Memᴰ.head refl, sym at)
          | inr there ↦ let (e, me, at) = (cited n).0 there in (e, Memᴰ.tail me, at)
        ],
        λ (e, m, at). subst (Memᴰ n) is (elim (Memᴰ.cases_cons m) [
          | inl e_is ↦ Memᴰ.head (sym at ∙ ap (λ (x : Episode). x.seq) e_is)
          | inr there ↦ Memᴰ.tail ((cited n).1 (e, there, at))
        ]),
      ),
    )

evidence-cited :
    (goal_id : String) (es : List Episode)
    → ((e : Episode) → Memᴰ e es → IsEvidence goal_id e)
    → (seqs : List ℕ) × (cite goal_id es ≡ ok seqs)
unfolding cite
evidence-cited goal_id [] good = ([], refl)
evidence-cited goal_id (e ∷ es) good =
    let (whose, kind) = good e (Memᴰ.head refl) in
    let same : str_eq e.goal_id goal_id ≡ true = (eq_iff e.goal_id goal_id).1 whose in
    let (seqs, rest) = evidence-cited goal_id es (λ f m. good f (Memᴰ.tail m)) in
    (e.seq ∷ seqs, rw (same, kind, rest) refl)

-- A claim that cites exactly these episodes, which are evidence of its goal.
pub record IsCited (es : List Episode) (k : Knowledge) : Type 0 where
  pub evidence : (e : Episode) → Memᴰ e es → IsEvidence k.evidence_goal_id e
  pub cited : (n : ℕ) → Memᴰ n k.evidence_seqs ↔ ((e : Episode) × Memᴰ e es × (e.seq ≡ n))

promoted_cites :
    (tenant subject key value : String) (e : Episode) (es : List Episode) (k : Knowledge)
    → promote tenant subject key value (e ∷ es) ≡ ok k
    → (seqs : List ℕ) × (cite e.goal_id (e ∷ es) ≡ ok seqs)
unfolding promote
promoted_cites tenant subject key value e es k h = elim (Result-cases (cite e.goal_id (e ∷ es))) [
  | inr found ↦ found
  | inl (x, failed) ↦ absurd (ground arith)
]

-- Promote makes a claim of episodes exactly if there is one and they are all observations and effects
-- of the goal of the first; and the claim that it makes, if it does, cites exactly these.
pub promote_lem :
    (tenant subject key value : String) (es : List Episode)
    → (((e : Episode) × Memᴰ e es × ((f : Episode) → Memᴰ f es → IsEvidence e.goal_id f))
        ↔ ((k : Knowledge) × (promote tenant subject key value es ≡ ok k)))
      × ((k : Knowledge) → promote tenant subject key value es ≡ ok k → IsCited es k)
unfolding promote
promote_lem tenant subject key value [] =
    ((λ (e, m, good). elim m [ ], λ (k, h). absurd (ground arith)), λ k h. absurd (ground arith))
promote_lem tenant subject key value (e ∷ es) = (
  (
    λ (x, m, good).
        let first : e.goal_id ≡ x.goal_id = (good e (Memᴰ.head refl)).0 in
        let (seqs, cited) =
          evidence-cited e.goal_id (e ∷ es) (λ f mf. ((good f mf).0 ∙ sym first, (good f mf).1)) in
        rw cited (_, refl),
    λ (k, h).
        let (seqs, cited) = promoted_cites tenant subject key value e es k h in
        (e, Memᴰ.head refl, (cite-IsEvidence e.goal_id (e ∷ es) seqs cited).0),
  ),
  λ k h.
      let (seqs, cited) = promoted_cites tenant subject key value e es k h in
      let (good, numbers) = cite-IsEvidence e.goal_id (e ∷ es) seqs cited in
      let whose : e.goal_id ≡ k.evidence_goal_id = ground arith in
      let sorted : sort_le leb seqs ≡ k.evidence_seqs = ground arith in
      record {
        evidence = subst (λ g. (f : Episode) → Memᴰ f (e ∷ es) → IsEvidence g f) whose good;
        cited = λ n. (
          λ m. (numbers n).0 (mem_of_sort_le leb seqs n (subst (Memᴰ n) (sym sorted) m)),
          λ there. subst (Memᴰ n) sorted (mem-sort_le leb seqs n ((numbers n).1 there)),
        );
      },
)
