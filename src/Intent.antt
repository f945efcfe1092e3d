-- ===== src/Intent.antt =====
-- internal/intent/intent.go: the closed set of nineteen intents, their tiers, and the nine axes.
use heros_agent.Base.{
  Bool, true, false, ◌||◌, Option, none, some, List, [], ◌∷◌, String, if◌then◌else◌,
}

pub data Intent : Type 0 where
  assess improve evalset compare : Intent
  graph run_history coverage context memory harness loop graph_order preview_change skills tools :
      Intent
  author prompt model deliver : Intent

pub data Tier : Type 0 where
  goal query effect : Tier

unfoldable pub Intent-discrete : Discrete Intent
Intent-discrete = hlevel

abbrev pub intent_name : Intent → String
intent_name assess = "assess"
intent_name improve = "improve"
intent_name evalset = "evalset"
intent_name compare = "compare"
intent_name graph = "graph"
intent_name run_history = "run_history"
intent_name coverage = "coverage"
intent_name context = "context"
intent_name memory = "memory"
intent_name harness = "harness"
intent_name loop = "loop"
intent_name graph_order = "graph_order"
intent_name preview_change = "preview_change"
intent_name skills = "skills"
intent_name tools = "tools"
intent_name author = "author"
intent_name prompt = "prompt"
intent_name model = "model"
intent_name deliver = "deliver"

pub record Spec : Type 0 where
  pub intent : Intent
  pub tier : Tier
  pub axis : String
  pub question : String

abbrev spec : Intent → Tier → String → String → Spec
spec i t a q = record { intent = i; tier = t; axis = a; question = q }

unfoldable pub specs : List Spec
specs =
    spec assess goal "" "look at my repository and tell me what is weak"
    ∷ spec improve goal "" "fix it, and open a pull request"
    ∷ spec evalset goal "" "build me an evaluation set for this agent"
    ∷ spec compare goal "" "is this version better than the last one?"
    ∷ spec graph query "graph" "what does my agent actually do, step by step?"
    ∷ spec run_history query "" "what happened in that run?"
    ∷ spec coverage query "" "what did you measure, and what did you not?"
    ∷ spec context query "context" "what conversation history does this node get?"
    ∷ spec memory query "memory" "what does this node remember between calls?"
    ∷ spec harness query "harness"
        "what is this node allowed to do — what can it reach, and what can it spend?"
    ∷ spec loop query "loop" "how many turns does it take, and in what loop?"
    ∷ spec graph_order query "graph" "should these nodes run in this order?"
    ∷ spec preview_change query "" "what exactly would you write into my source?"
    ∷ spec skills query "skills" "what skills are bound at this call site?"
    ∷ spec tools query "tools" "what tools is this node offered, and which does it actually call?"
    ∷ spec author effect "" "change something on an axis and show me the diff"
    ∷ spec prompt effect "prompt" "change what this node is told"
    ∷ spec model effect "model" "change which model this node calls"
    ∷ spec deliver effect "" "put an approved change into my repository"
    ∷ []

unfoldable pub axes : List String
axes =
    "model" ∷ "prompt" ∷ "skills" ∷ "context" ∷ "tools" ∷ "memory" ∷ "harness" ∷ "loop" ∷ "graph"
    ∷ []

abbrev pub same_intent : Intent → Intent → Bool
same_intent i j = elim (Intent-discrete i j) [ yes _ ↦ true | no _ ↦ false ]

abbrev same_tier : Tier → Tier → Bool
same_tier goal goal = true
same_tier query query = true
same_tier effect effect = true
same_tier _ _ = false

lookup_in : List Spec → Intent → Option Spec
unfolding Intent-discrete
lookup_in [] i = none
lookup_in (s ∷ ss) i = if same_intent s.intent i then some s else lookup_in ss i

unfoldable pub lookup : Intent → Option Spec
unfolding lookup_in specs
lookup i = lookup_in specs i

unfoldable pub is_valid : Intent → Bool
unfolding lookup
is_valid i = elim (lookup i) [ none ↦ false | some s ↦ true ]

in_tier_of : List Spec → Tier → List Intent
in_tier_of [] t = []
in_tier_of (s ∷ ss) t =
    let rest = in_tier_of ss t in if same_tier s.tier t then s.intent ∷ rest else rest

unfoldable pub in_tier : Tier → List Intent
unfolding in_tier_of specs
in_tier t = in_tier_of specs t

unfoldable pub durable : Intent → Bool
unfolding lookup
durable i = elim (lookup i) [ none ↦ false | some s ↦ same_tier s.tier goal ]

unfoldable pub effect_bearing : Intent → Bool
unfolding lookup
effect_bearing i = elim (lookup i) [
  | none ↦ false
  | some s ↦ same_tier s.tier effect || same_intent s.intent improve
]
