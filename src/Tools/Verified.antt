-- ===== src/Tools/Verified.antt =====
-- The contract of internal/toolcontract/toolcontract.go: which tools a registry may hold, and what a
-- successful call stands for.
use heros_agent.Base.{
  ◌≡◌, ◌≢◌, refl, ◌∙◌, ap, subst, arith, true, false, Option, none, some, [], String, str_eq,
  eq_iff, inl, inr, Bool-cases, Option-cases, str_eq-true, lookup, insert, delete, lookup-insert,
  lookup-insert_self, lookup-delete,
}
use heros_agent.Base.Int64.{pos, ◌<ℤ◌}
use heros_agent.Errors.{ok, ◌>>◌, err_or_ok, >>-eq-ok}
use heros_agent.Worker.{Call, ToolResult}
use heros_agent.Tools.{
  Tool, Spec, Verifier, Registry, new_registry, register, replace, invoke, run_tool, verify_call,
  judge_verdict, check_spec, check_new, put,
}

-- A tool that can be operated: it has a timeout, and if it changes something outside the platform, a
-- verifier and permissions that it declares.
pub record IsOperable (r : Registry) (kind : String) (t : Tool) : Type 0 where
  pub named : t.spec.kind ≡ kind
  pub timed : pos 0 <ℤ t.spec.timeout
  pub declared : t.spec.effect_bearing ≡ true → t.spec.permissions ≢ []
  pub verified : t.spec.effect_bearing ≡ true → (v : Verifier) × (lookup kind r.verifiers ≡ some v)

abbrev pub IsSafe : Registry → Type 0
IsSafe r = (kind : String) (t : Tool) → lookup kind r.tools ≡ some t → IsOperable r kind t

new_registry-IsSafe : IsSafe new_registry
unfolding lookup
new_registry-IsSafe kind t at = absurd (ground arith)

check_spec-timed : (s : Spec) (v : Option Verifier) → check_spec s v ≡ ok tt → pos 0 <ℤ s.timeout
unfolding check_spec
check_spec-timed s v h = ground arith

check_spec-declared :
    (s : Spec) (v : Option Verifier)
    → check_spec s v ≡ ok tt
    → s.effect_bearing ≡ true
    → s.permissions ≢ []
unfolding check_spec
check_spec-declared s v h e none_declared = ground arith

check_spec-given :
    (s : Spec) (v : Option Verifier)
    → check_spec s v ≡ ok tt
    → s.effect_bearing ≡ true
    → (u : Verifier) × (v ≡ some u)
unfolding check_spec
check_spec-given s none h e = absurd (ground arith)
check_spec-given s (some u) h e = (u, refl)

verifiers-put :
    (r : Registry) (t : Tool) (v : Option Verifier) (kind : String)
    → str_eq t.spec.kind kind ≡ false
    → lookup kind (put r t v).verifiers ≡ lookup kind r.verifiers
verifiers-put r t none kind ne = refl
verifiers-put r t (some u) kind ne = ground (arith, lookup-insert t.spec.kind kind u r.verifiers)

tools-put :
    (r : Registry) (t : Tool) (v : Option Verifier)
    → (put r t v).tools ≡ insert t.spec.kind t r.tools
tools-put r t none = refl
tools-put r t (some u) = refl

put-IsSafe :
    (r : Registry) (t : Tool) (v : Option Verifier)
    → check_spec t.spec v ≡ ok tt
    → IsSafe r
    → IsSafe (put r t v)
put-IsSafe r t v fine safe kind u at = elim (Bool-cases (str_eq t.spec.kind kind)) [
  | inl e ↦ fresh (str_eq-true t.spec.kind kind e) (
      ground
        (arith, at, ap (lookup kind) (tools-put r t v), lookup-insert t.spec.kind kind t r.tools))
  | inr ne ↦ old ne (
      ground
        (arith, at, ap (lookup kind) (tools-put r t v), lookup-insert t.spec.kind kind t r.tools))
]
  where
    own :
        t.spec.effect_bearing ≡ true
        → (w : Verifier) × (lookup t.spec.kind (put r t v).verifiers ≡ some w)
    own e =
        let (w, is) = check_spec-given t.spec v fine e in
        (
          w,
          ap (λ o. lookup t.spec.kind (put r t o).verifiers) is
              ∙ lookup-insert_self t.spec.kind w r.verifiers,
        )

    fresh : t.spec.kind ≡ kind → t ≡ u → IsOperable (put r t v) kind u
    fresh same is =
        subst (λ k. IsOperable (put r t v) k u) same
          (subst (IsOperable (put r t v) t.spec.kind) is (record {
            named = refl;
            timed = check_spec-timed t.spec v fine;
            declared = check_spec-declared t.spec v fine;
            verified = own;
          }))

    old :
        str_eq t.spec.kind kind ≡ false
        → lookup kind r.tools ≡ some u
        → IsOperable (put r t v) kind u
    old ne was =
        let op = safe kind u was in
        record {
          named = op.named;
          timed = op.timed;
          declared = op.declared;
          verified = λ e. let (w, is) = op.verified e in (w, verifiers-put r t v kind ne ∙ is);
        }

register-IsSafe :
    (r : Registry) (t : Tool) (v : Option Verifier) → IsSafe r → IsSafe (register r t v).0
unfolding register
register-IsSafe r t v safe = elim (err_or_ok (check_spec t.spec v >> check_new r t.spec)) [
  | inl (e, is) ↦ subst IsSafe (ground arith) safe
  | inr (u, is) ↦
      let (fine, rest) = >>-eq-ok (check_spec t.spec v) (check_new r t.spec) is in
      let same : put r t v ≡ (register r t v).0 = ground arith in
      subst IsSafe same (put-IsSafe r t v fine safe)
]

delete-IsSafe :
    (r : Registry) (gone : String)
    → IsSafe r
    → IsSafe (record { tools = delete gone r.tools; verifiers = delete gone r.verifiers })
delete-IsSafe r gone safe kind t at = elim (Bool-cases (str_eq gone kind)) [
  | inl e ↦ absurd (ground (arith, at, lookup-delete gone kind r.tools))
  | inr ne ↦
      let op = safe kind t (ground (arith, at, lookup-delete gone kind r.tools)) in
      record {
        named = op.named;
        timed = op.timed;
        declared = op.declared;
        verified = λ e.
            let (v, is) = op.verified e in
            (v, ground (arith, is, lookup-delete gone kind r.verifiers));
      }
]

replace-IsSafe :
    (r : Registry) (t : Tool) (v : Option Verifier) → IsSafe r → IsSafe (replace r t v).0
unfolding replace
replace-IsSafe r t v safe =
    register-IsSafe
      (record { tools = delete t.spec.kind r.tools; verifiers = delete t.spec.kind r.verifiers }) t
      v (delete-IsSafe r t.spec.kind safe)

-- A registry that Register and Replace have made, from an empty one.
pub data Wired : Registry → Type 0 where
  unwired : Wired new_registry
  registers : {r : Registry} (t : Tool) (v : Option Verifier) → Wired r → Wired (register r t v).0
  replaces : {r : Registry} (t : Tool) (v : Option Verifier) → Wired r → Wired (replace r t v).0

-- Every tool of a registry that Register and Replace made, errors included, has a timeout, and if it
-- changes something outside the platform it has a verifier and declares permissions.
pub Wired-IsSafe : {r : Registry} → Wired r → IsSafe r
Wired-IsSafe unwired = new_registry-IsSafe
Wired-IsSafe (registers {r} t v wired) = register-IsSafe r t v (Wired-IsSafe wired)
Wired-IsSafe (replaces {r} t v wired) = replace-IsSafe r t v (Wired-IsSafe wired)

-- The call was executed by the tool of its kind, and if the tool changes something outside the
-- platform, under an idempotency key and with the verifier's word that it happened.
pub record IsConfirmed (r : Registry) (c : Call) (res : ToolResult) : Type 0 where
  pub tool : Tool
  pub registered : lookup c.kind r.tools ≡ some tool
  pub executed : tool.execute c ≡ (res, none)
  pub keyed : tool.spec.effect_bearing ≡ true → c.idempotency_key ≢ ""
  pub confirmed :
      tool.spec.effect_bearing ≡ true
      → (v : Verifier) × (lookup c.kind r.verifiers ≡ some v)
        × ((v c res).0 ≡ true)
        × ((v c res).2 ≡ none)

verify_call-ok :
    (r : Registry) (c : Call) (res res' : ToolResult) (v : Verifier)
    → verify_call r c res ≡ (res', none)
    → lookup c.kind r.verifiers ≡ some v
    → ((v c res).0 ≡ true) × ((v c res).2 ≡ none)
unfolding verify_call judge_verdict
verify_call-ok r c res res' v h at = ground arith

run_tool-executed :
    (r : Registry) (t : Tool) (c : Call) (res : ToolResult)
    → run_tool r t c ≡ (res, none)
    → (t.execute c ≡ (res, none)) × (verify_call r c res ≡ (res, none))
unfolding run_tool verify_call judge_verdict
run_tool-executed r t c res h = (ground arith, ground arith)

-- In a registry that was wired by Register and Replace, a call that Invoke answers without an error
-- was executed by the tool of its kind; and if that tool changes something outside the platform, the
-- call had an idempotency key and the tool's verifier confirmed the effect.
pub invoke-IsConfirmed :
    (r : Registry) (c : Call) (res : ToolResult)
    → Wired r
    → invoke r c ≡ (res, none)
    → IsConfirmed r c res
unfolding invoke
invoke-IsConfirmed r c res wired h = elim (Option-cases (lookup c.kind r.tools)) [
  | inl e ↦ absurd (ground arith)
  | inr (t, at) ↦
      let (executed, verdict) = run_tool-executed r t c res (ground arith) in
      record {
        tool = t;
        registered = at;
        executed = executed;
        keyed = λ e none_given. ground (arith, eq_iff c.idempotency_key "");
        confirmed = λ e.
            let (v, has) = (Wired-IsSafe wired c.kind t at).verified e in
            let (fine, clear) = verify_call-ok r c res res v verdict has in (v, has, fine, clear);
      }
]
