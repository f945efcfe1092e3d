-- ===== src/Memory/Scoped.antt =====
-- internal/memory/scoped.go: the view of Mem that one tenant has. A goal's history belongs to the tenant
-- that writes to it first.
use heros_agent.Base.{
  ℕ, Bool, true, false, not, ◌&&◌, none, some, List, [], ◌∷◌, String, str_eq, lookup, insert,
  if◌then◌else◌,
}
use heros_agent.Base.Text.{verbatim, quoted}
use heros_agent.Errors.{Error, Result, ok, err, history_not_found}
use heros_agent.Memory.{Episode, Summary, Knowledge}
use heros_agent.Memory.Mem
use heros_agent.Memory.Mem.{Mem}

abbrev pub not_yours : String → Error
not_yours goal_id = record {
  sentinel = history_not_found;
  message = verbatim "memory: not found: goal " ∷ quoted goal_id ∷ [];
}

-- Whether the tenant may write, and the store with its claim.
unfoldable pub claim : String → String → Mem → Mem × Bool
claim tenant goal_id m =
    if str_eq tenant "" then (m, false) else (elim (lookup goal_id m.tenant_of) [
      | some owner ↦ (m, str_eq owner tenant)
      | none ↦ (record m { tenant_of = insert goal_id tenant m.tenant_of }, true)
    ])

-- Go's map answers the empty text for a goal that nobody has claimed.
unfoldable pub owns : String → String → Mem → Bool
owns tenant goal_id m =
    not (str_eq tenant "")
    && str_eq (elim (lookup goal_id m.tenant_of) [ none ↦ "" | some owner ↦ owner ]) tenant

-- A method that writes to a goal's history, behind the claim.
abbrev pub behind {ℓ} : {A : Type ℓ} → String → String → (Mem → Mem × A) → Mem → Mem × Result A
behind tenant goal_id write m =
    let (claimed, yours) = claim tenant goal_id m in
    let (written, answer) = write claimed in
    if yours then (written, ok answer) else (claimed, err (not_yours goal_id))

unfoldable pub append_episode : String → Episode → Mem → Mem × Result ℕ
append_episode tenant e m = behind tenant e.goal_id (Mem.append_episode e) m

unfoldable pub episodes_of : String → String → Mem → List Episode
episodes_of tenant goal_id m = if owns tenant goal_id m then Mem.episodes_of goal_id m else []

unfoldable pub save_summary : String → Summary → Mem → Mem × Result ℕ
save_summary tenant s m = behind tenant s.goal_id (Mem.save_summary s) m

unfoldable pub summaries_of : String → String → Mem → List Summary
summaries_of tenant goal_id m = if owns tenant goal_id m then Mem.summaries_of goal_id m else []

unfoldable pub promote_knowledge : String → Knowledge → Mem → Mem × Result (Unit {0})
promote_knowledge tenant k m = Mem.promote_knowledge (record k { tenant = tenant }) m

-- The first argument after the scope's is not read.
unfoldable pub knowledge_for : String → String → String → Mem → List Knowledge
knowledge_for tenant ignored subject m = Mem.knowledge_for tenant subject m
