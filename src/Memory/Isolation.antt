-- ===== src/Memory/Isolation.antt =====
-- internal/memory/scoped.go: what the calls of one tenant mean to the histories of the others.
use heros_agent.Base.{
  ◌≡◌, ◌≢◌, refl, sym, ◌∙◌, ap, arith, Bool, true, false, List, String, str_eq, str_eq-false,
  eq_iff, lookup, insert, lookup-insert, ◌⊎◌, inl, inr, Bool-cases, Option-cases, none, some, Map,
  str_eq-true, subst, ◌||◌,
}
use heros_agent.Memory.{Episode, Summary, Knowledge}
use heros_agent.Memory.Mem
use heros_agent.Memory.Mem.{Mem, under, without_seqs}
use heros_agent.Memory.Recorded.{under-insert}
use heros_agent.Memory.Scoped.{
  claim, owns, behind, append_episode, episodes_of, save_summary, summaries_of, promote_knowledge,
}

-- A call that writes.
pub data Write : Type 0 where
  appends : Episode → Write
  saves : Summary → Write
  promotes : Knowledge → Write

abbrev pub after_write : String → Write → Mem → Mem
after_write tenant (appends e) m = (append_episode tenant e m).0
after_write tenant (saves s) m = (save_summary tenant s m).0
after_write tenant (promotes k) m = (promote_knowledge tenant k m).0

-- What a tenant reads of a goal.
pub record Read : Type 0 where
  pub whose : Bool
  pub episodes : List Episode
  pub summaries : List Summary

abbrev pub read : String → String → Mem → Read
read tenant goal_id m = record {
  whose = owns tenant goal_id m;
  episodes = episodes_of tenant goal_id m;
  summaries = summaries_of tenant goal_id m;
}

-- A claim changes nothing but the owner of a goal that had none.
claim-cases :
    (by own : String) (m : Mem)
    → ((claim by own m).0 ≡ m)
      ⊎ ((lookup own m.tenant_of ≡ none)
          × (claim by own m ≡ (record m { tenant_of = insert own by m.tenant_of }, true)))
unfolding claim
claim-cases by own m = elim (Bool-cases (str_eq by "")) [
  | inl e ↦ rw e (inl refl)
  | inr e ↦ rw e (elim (Option-cases (lookup own m.tenant_of)) [
    | inl free ↦ rw free (inr (refl, refl))
    | inr (owner, at) ↦ rw at (inl refl)
  ])
]

owned :
    (tenant goal_id : String) (m : Mem)
    → owns tenant goal_id m ≡ true
    → (str_eq tenant "" ≡ false) × (lookup goal_id m.tenant_of ≡ some tenant)
unfolding owns
owned tenant goal_id m own = elim (Option-cases (lookup goal_id m.tenant_of)) [
  | inl free ↦ absurd (ground (arith, eq_iff "" tenant, eq_iff tenant ""))
  | inr (owner, at) ↦ (ground arith, ground (arith, eq_iff owner tenant))
]

-- The claim of one tenant makes no other an owner, and is refused on what another owns.
claim-others :
    (by tenant own goal_id : String) (m : Mem)
    → by ≢ tenant
    → owns tenant goal_id (claim by own m).0 ≡ owns tenant goal_id m
unfolding owns
claim-others by tenant own goal_id m apart = elim (claim-cases by own m) [
  | inl same ↦ ap (owns tenant goal_id) same
  | inr (free, made) ↦
      let there = lookup-insert own goal_id by m.tenant_of in
      let other = str_eq-false by tenant apart in
      rw made (ground (arith, eq_iff own goal_id, eq_iff "" tenant, eq_iff tenant ""))
]

claim-refused :
    (by tenant goal_id : String) (m : Mem)
    → by ≢ tenant
    → owns tenant goal_id m ≡ true
    → (claim by goal_id m).1 ≡ false
unfolding claim
claim-refused by tenant goal_id m apart own =
    let (named, at) = owned tenant goal_id m own in
    elim (Bool-cases (str_eq by "")) [
      | inl e ↦ rw e refl
      | inr e ↦ rw (e, at) (str_eq-false tenant by (λ same. apart (sym same)))
    ]

same_read :
    (tenant goal_id : String) (m n : Mem)
    → owns tenant goal_id m ≡ owns tenant goal_id n
    → (owns tenant goal_id n ≡ true
        → (under goal_id m.episodes ≡ under goal_id n.episodes)
          × (under goal_id m.summaries ≡ under goal_id n.summaries))
    → read tenant goal_id m ≡ read tenant goal_id n
unfolding episodes_of summaries_of Mem.episodes_of Mem.summaries_of
same_read tenant goal_id m n whose same = elim (Bool-cases (owns tenant goal_id n)) [
  | inr foreign ↦ rw (whose, foreign) refl
  | inl own ↦
      let (episodes, summaries) = same own in
      rw (whose, own) (λ i. record { whose = true; episodes = episodes i; summaries = summaries i })
]

-- A method that writes to one goal's history and to nothing else that a view reads.
record IsLocal {A : Type 0} (own : String) (write : Mem → Mem × A) : Type 0 where
  owners : (n : Mem) → (write n).0.tenant_of ≡ n.tenant_of
  elsewhere :
      (n : Mem) (goal_id : String)
      → str_eq own goal_id ≡ false
      → (under goal_id (write n).0.episodes ≡ under goal_id n.episodes)
        × (under goal_id (write n).0.summaries ≡ under goal_id n.summaries)

under-apart :
    {A : Type 0} (key other : String) (xs : List A) (m : Map (List A))
    → str_eq key other ≡ false
    → under other (insert key xs m) ≡ under other m
under-apart key other xs m apart = elim (under-insert key other xs m) [
  | inl (same, _) ↦ absurd (ground (arith, eq_iff key other))
  | inr (_, kept) ↦ kept
]

append_episode-IsLocal : (e : Episode) → IsLocal e.goal_id (Mem.append_episode e)
unfolding Mem.append_episode
append_episode-IsLocal e = record {
  owners = λ n. refl;
  elsewhere = λ n goal_id apart. (under-apart e.goal_id goal_id _ n.episodes apart, refl);
}

save_summary-IsLocal : (s : Summary) → IsLocal s.goal_id (Mem.save_summary s)
unfolding Mem.save_summary
save_summary-IsLocal s = record {
  owners = λ n. refl;
  elsewhere = λ n goal_id apart. (
    under-apart s.goal_id goal_id _ n.episodes apart,
    under-apart s.goal_id goal_id _ n.summaries apart,
  );
}

claim-keeps :
    (by own goal_id : String) (m : Mem)
    → (under goal_id (claim by own m).0.episodes ≡ under goal_id m.episodes)
      × (under goal_id (claim by own m).0.summaries ≡ under goal_id m.summaries)
claim-keeps by own goal_id m = elim (claim-cases by own m) [
  | inl same ↦ (
    ap (λ (n : Mem). under goal_id n.episodes) same,
    ap (λ (n : Mem). under goal_id n.summaries) same,
  )
  | inr (_, made) ↦ rw made (refl, refl)
]

owns-owners :
    (tenant goal_id : String) (m n : Mem)
    → m.tenant_of ≡ n.tenant_of
    → owns tenant goal_id m ≡ owns tenant goal_id n
unfolding owns
owns-owners tenant goal_id m n same = rw same refl

behind-others :
    {A : Type 0} (by tenant own goal_id : String) (write : Mem → Mem × A) (m : Mem)
    → by ≢ tenant
    → IsLocal own write
    → read tenant goal_id (behind by own write m).0 ≡ read tenant goal_id m
behind-others by tenant own goal_id write m apart local =
    let claimed = (claim by own m).0 in
    let others = claim-others by tenant own goal_id m apart in
    let kept = claim-keeps by own goal_id m in
    elim (Bool-cases (claim by own m).1) [
      | inr refused ↦ rw refused (same_read tenant goal_id claimed m others (λ owned. kept))
      | inl yours ↦ rw yours (
          same_read tenant goal_id (write claimed).0 m
            (owns-owners tenant goal_id (write claimed).0 claimed (local.owners claimed) ∙ others)
            (λ mine. elim (Bool-cases (str_eq own goal_id)) [
              | inl same ↦
                  let is = str_eq-true own goal_id same in
                  let refused =
                    claim-refused by tenant own m apart
                      (subst (λ g. owns tenant g m ≡ true) (sym is) mine) in
                  absurd (ground arith)
              | inr far ↦
                  let (episodes, summaries) = local.elsewhere claimed goal_id far in
                  (episodes ∙ kept.0, summaries ∙ kept.1)
            ]))
    ]

promote-keeps :
    (by : String) (k : Knowledge) (m : Mem)
    → ((promote_knowledge by k m).0.tenant_of ≡ m.tenant_of)
      × ((promote_knowledge by k m).0.episodes ≡ m.episodes)
      × ((promote_knowledge by k m).0.summaries ≡ m.summaries)
unfolding promote_knowledge Mem.promote_knowledge
promote-keeps by k m =
    elim (Bool-cases (str_eq k.evidence_goal_id "" || without_seqs k.evidence_seqs)) [
      | inl h ↦ rw h (refl, refl, refl)
      | inr h ↦ rw h (refl, refl, refl)
    ]

-- Whatever one tenant writes, an episode, a summary or a claim, to whatever goal: what any other tenant
-- reads of any goal's history, and whether the goal is its own, stays as it is.
pub write-others :
    (by tenant : String) (c : Write) (m : Mem) (goal_id : String)
    → by ≢ tenant
    → read tenant goal_id (after_write by c m) ≡ read tenant goal_id m
unfolding append_episode save_summary
write-others by tenant (appends e) m goal_id apart =
    behind-others by tenant e.goal_id goal_id (Mem.append_episode e) m apart
      (append_episode-IsLocal e)
write-others by tenant (saves s) m goal_id apart =
    behind-others by tenant s.goal_id goal_id (Mem.save_summary s) m apart (save_summary-IsLocal s)
write-others by tenant (promotes k) m goal_id apart =
    let (owners, episodes, summaries) = promote-keeps by k m in
    same_read tenant goal_id (promote_knowledge by k m).0 m
      (owns-owners tenant goal_id (promote_knowledge by k m).0 m owners)
      (λ own. (ap (under goal_id) episodes, ap (under goal_id) summaries))
