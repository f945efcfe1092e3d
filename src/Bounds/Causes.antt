-- ===== src/Bounds/Causes.antt =====
-- internal/bounds/bounds.go: the closed set of refusal causes, and what a person should do about each.
use heros_agent.Base.{String, List, [], ◌∷◌}

pub data RefusalCause : Type 0 where
  no_subject no_source_revision multiple_subjects unbounded_requested unknown_axis no_budget :
      RefusalCause
  ceiling_exceeded plan_exhausted plan_stalled : RefusalCause

abbrev pub cause_name : RefusalCause → String
cause_name no_subject = "no_subject"
cause_name no_source_revision = "no_source_revision"
cause_name multiple_subjects = "multiple_subjects"
cause_name unbounded_requested = "unbounded_requested"
cause_name unknown_axis = "unknown_axis"
cause_name no_budget = "no_budget"
cause_name ceiling_exceeded = "ceiling_exceeded"
cause_name plan_exhausted = "plan_exhausted"
cause_name plan_stalled = "plan_stalled"

-- The table `nextActions`.
unfoldable pub next_action : RefusalCause → String
next_action no_subject = "name a repository, or pick one from your connected repositories"
next_action no_source_revision =
    "push a revision, or connect the repository so a revision can be resolved"
next_action multiple_subjects = "ask about one repository at a time"
next_action unbounded_requested =
    "give the run a limit — a number of proposals, a spend, or a deadline"
next_action unknown_axis =
    "name one of the nine axes: model, prompt, skills, context, tools, memory, harness, loop, graph"
next_action no_budget =
    "add budget to this organization's plan, or run the read-only assessment instead"
next_action ceiling_exceeded =
    "raise the ceiling for this goal deliberately, or narrow the question and run again"
next_action plan_exhausted =
    "read what the tasks reported — if there is no agent in this repository there is nothing to assess, so point her at one, or ask a narrower question of this one"
next_action plan_stalled = "read which task failed first — everything after it was waiting on it"

unfoldable pub causes : List RefusalCause
causes =
    no_subject ∷ no_source_revision ∷ multiple_subjects ∷ unbounded_requested ∷ unknown_axis
    ∷ no_budget ∷ ceiling_exceeded ∷ plan_exhausted ∷ plan_stalled ∷ []
