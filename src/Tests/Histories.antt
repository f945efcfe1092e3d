-- ===== src/Tests/Histories.antt =====
-- Histories of a goal: an observation and a decision that are compressed, and a claim about them.
use heros_agent.Base.{
  ℕ, suc, ◌+◌, ◌≤◌, ◌≡◌, ◌≢◌, refl, arith, true, false, List, [], ◌∷◌, String, str_eq, eq_iff, ◌↔◌,
  inl, inr, subst, sym,
}
use mathlib.Core.List.{Memᴰ}
use mathlib.Core.List.Memᴰ
use heros_agent.Errors.{ok}
use heros_agent.Memory.{
  Episode, EpisodeKind, observation, decision, Summary, Knowledge, compress, promote,
}
use heros_agent.Memory.Compressed.{IsRun, IsCover, IsFoldable, compress_lem}
use heros_agent.Memory.Mem
use heros_agent.Memory.Mem.{Mem, new_mem}
use heros_agent.Memory.Recorded.{
  Run, start, appends, saves, IsStored, IsRecorded, IsRecorded-new, Run-IsRecorded,
}
use heros_agent.Memory.Promoted.{IsEvidence, IsCited, promote_lem}
use heros_agent.Memory.Isolation as Isolation
use heros_agent.Memory.Isolation.{read, after_write, write-others}

abbrev seen : Episode
seen = record {
  goal_id = "g";
  seq = 1;
  task_id = "a";
  kind = observation;
  summary = [];
  detail = [];
  at = 5;
  summarised_by = 0;
}

abbrev chosen : Episode
chosen = record seen { seq = 2; kind = decision }

abbrev both : List Episode
both = chosen ∷ seen ∷ []

compress_lem_example :
    ((e : Episode) (rest : List Episode)
      → both ≡ e ∷ rest
      → IsRun e.seq both
      → ((f : Episode) → Memᴰ f both → IsFoldable "g" f)
      → (s : Summary) × (compress "g" both "two steps" 9 ≡ ok s))
    × ((s : Summary) → compress "g" both "two steps" 9 ≡ ok s → IsCover "g" both s)
compress_lem_example = compress_lem "g" both "two steps" 9

abbrev summary : Summary
summary = record {
  goal_id = "g";
  id = 0;
  from_seq = 1;
  to_seq = 2;
  content = "two steps";
  dropped = 2;
  at = 9;
}

compress_test : compress "g" both "two steps" 9 ≡ ok summary
unfolding compress heros_agent.Memory.fold heros_agent.Memory.check_run
    heros_agent.Memory.compressible
compress_test = refl

-- Both are recorded, and then the summary of them is saved.
abbrev two : Mem
two = (Mem.append_episode chosen (Mem.append_episode seen new_mem).0).0

two_test : Mem.episodes_of "g" two ≡ seen ∷ chosen ∷ []
unfolding Mem.episodes_of Mem.append_episode heros_agent.Base.lookup heros_agent.Base.insert
two_test = refl

both-IsStored : (e : Episode) → Memᴰ e both → IsStored (Mem.episodes_of "g" two) e
both-IsStored e m = elim (Memᴰ.cases_cons m) [
  | inl is ↦
      subst (IsStored (Mem.episodes_of "g" two)) (sym is)
        (chosen, subst (Memᴰ chosen) (sym two_test) (Memᴰ.tail (Memᴰ.head refl)), refl, refl)
  | inr m1 ↦ elim (Memᴰ.cases_cons m1) [
    | inl is ↦
        subst (IsStored (Mem.episodes_of "g" two)) (sym is)
          (seen, subst (Memᴰ seen) (sym two_test) (Memᴰ.head refl), refl, refl)
    | inr m2 ↦ elim m2 [ ]
  ]
]

recorded : Run new_mem (Mem.save_summary summary two).0
recorded =
    saves "g" both "two steps" 9 summary compress_test both-IsStored
      (appends chosen refl (appends seen refl start))

Run-IsRecorded_example : IsRecorded "g" (Mem.save_summary summary two).0
Run-IsRecorded_example = Run-IsRecorded "g" recorded (IsRecorded-new "g")

promote_lem_example :
    (((e : Episode) × Memᴰ e (seen ∷ [])
        × ((f : Episode) → Memᴰ f (seen ∷ []) → IsEvidence e.goal_id f))
      ↔ ((k : Knowledge) × (promote "t" "repo" "tools" "many" (seen ∷ []) ≡ ok k)))
    × ((k : Knowledge)
        → promote "t" "repo" "tools" "many" (seen ∷ []) ≡ ok k
        → IsCited (seen ∷ []) k)
promote_lem_example = promote_lem "t" "repo" "tools" "many" (seen ∷ [])

abbrev claimed : Knowledge
claimed = record {
  tenant = "t";
  subject = "repo";
  key = "tools";
  value = "many";
  evidence_goal_id = "g";
  evidence_seqs = 1 ∷ [];
  at = 0;
  superseded_by = "";
}

promote_test : promote "t" "repo" "tools" "many" (seen ∷ []) ≡ ok claimed
unfolding promote heros_agent.Memory.cite
promote_test = refl

apart : ◌≢◌ {A = String} "x" "t"
apart e = let same : str_eq "x" "t" ≡ true = (eq_iff "x" "t").1 e in absurd (ground arith)

-- The history is the tenant "t"'s, and "x" tries to write to it.
abbrev theirs : Mem
theirs = after_write "t" (Isolation.appends seen) new_mem

write-others_example :
    read "t" "g" (after_write "x" (Isolation.saves summary) theirs) ≡ read "t" "g" theirs
write-others_example = write-others "x" "t" (Isolation.saves summary) theirs "g" apart
