-- ===== src/Memory/Mem.antt =====
-- internal/memory/store.go: Mem, the in-process store of episodes, summaries and claims. Each method
-- runs under its mutex.
use heros_agent.Base.{
  ℕ, suc, leb, Bool, true, false, ◌&&◌, ◌||◌, none, some, List, [], ◌∷◌, ◌++◌, String, str_eq, Map,
  lookup, insert, length, map, sort_by, if◌then◌else◌,
}
use heros_agent.Base.Decimal.{◌<+>◌}
use heros_agent.Errors.{Result, ok, err}
use heros_agent.Memory.{Episode, Summary, Knowledge, uncited}

pub record Mem : Type 0 where
  pub episodes : Map (List Episode)
  pub summaries : Map (List Summary)
  pub knowledge : Map (List Knowledge)
  pub next_sum : ℕ
  -- Only the tenants' views read or write it.
  pub tenant_of : Map String

abbrev pub new_mem : Mem
new_mem = record { episodes = []; summaries = []; knowledge = []; next_sum = 0; tenant_of = [] }

-- Go's map answers nil for a key that is not there.
abbrev pub under {ℓ} : {A : Type ℓ} → String → Map (List A) → List A
under key m = elim (lookup key m) [ none ↦ [] | some xs ↦ xs ]

unfoldable pub append_episode : Episode → Mem → Mem × ℕ
append_episode e m =
    let seq = suc (length (under e.goal_id m.episodes)) in
    (
      record m {
        episodes =
            insert e.goal_id (under e.goal_id m.episodes ++ record e { seq = seq } ∷ []) m.episodes;
      },
      seq,
    )

unfoldable pub episodes_of : String → Mem → List Episode
episodes_of goal_id m = under goal_id m.episodes

abbrev pub mark : ℕ → ℕ → ℕ → Episode → Episode
mark id from to e = if leb from e.seq && leb e.seq to then record e { summarised_by = id } else e

-- A goal without episodes gets an empty list, which reads as none.
unfoldable pub save_summary : Summary → Mem → Mem × ℕ
save_summary s m =
    let id = suc m.next_sum in
    (
      record m {
        next_sum = id;
        summaries =
            insert s.goal_id (under s.goal_id m.summaries ++ record s { id = id } ∷ []) m.summaries;
        episodes =
            insert s.goal_id (map (mark id s.from_seq s.to_seq) (under s.goal_id m.episodes))
              m.episodes;
      },
      id,
    )

unfoldable pub summaries_of : String → Mem → List Summary
summaries_of goal_id m = under goal_id m.summaries

abbrev pub subject_key : String → String → String
subject_key tenant subject = tenant <+> "\0" <+> subject

abbrev pub is_live : Knowledge → Bool
is_live k = str_eq k.superseded_by ""

abbrev pub supersede : Knowledge → Knowledge → Knowledge
supersede by k =
    if str_eq k.key by.key && is_live k then record k { superseded_by = by.evidence_goal_id } else k

abbrev pub without_seqs : List ℕ → Bool
without_seqs [] = true
without_seqs (n ∷ ns) = false

unfoldable pub promote_knowledge : Knowledge → Mem → Mem × Result (Unit {0})
promote_knowledge k m =
    let at = subject_key k.tenant k.subject in
    if str_eq k.evidence_goal_id "" || without_seqs k.evidence_seqs
    then (m, err (uncited k.key))
    else (
      record m {
        knowledge = insert at (map (supersede k) (under at m.knowledge) ++ k ∷ []) m.knowledge;
      },
      ok tt,
    )

abbrev pub live_in : List Knowledge → List Knowledge
live_in [] = []
live_in (k ∷ ks) = let rest = live_in ks in if is_live k then k ∷ rest else rest

unfoldable pub knowledge_for : String → String → Mem → List Knowledge
knowledge_for tenant subject m =
    sort_by (λ (k : Knowledge). k.key) (live_in (under (subject_key tenant subject) m.knowledge))
