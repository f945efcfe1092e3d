-- ===== src/Edit/Applied.antt =====
-- What Validate of internal/edit/edit.go lets through, and what Apply then leaves.
use heros_agent.Base.{
  ℕ, zero, ◌≡◌, ◌≢◌, refl, sym, ◌∙◌, ap, subst, arith, false, Option, none, some, [], ◌∷◌, ◌++◌,
  String, lookup, insert, ◌↔◌, ◌⊎◌, inl, inr, Option-cases,
}
use heros_agent.Errors.{Error, Result, ok, err}
use heros_agent.Edit.{
  Bytes, Files, Proposal, Os, validate, write, verify, apply, judge, occurrences, replace_first,
  same_bytes, is_empty, check_indent, first_line, leading_space,
}
use heros_agent.Edit.Splits.{same_bytes_iff, IsFirst, IsWithout, once_iff, replaced_once}

-- The text to change stands in the file, from `u` to `v`, in one place, and its replacement differs from
-- it and is indented as it is.
pub record IsSafe (os : Os) (p : Proposal) (root : String) (files : Files) (full : String)
    (u v : Bytes) : Type 0 where
  pub leads : os.resolve root p.path files ≡ ok full
  pub there : lookup full files ≡ some (u ++ p.before ++ v)
  pub first : IsFirst p.before (u ++ p.before ++ v) u v
  pub once : IsWithout p.before v
  pub differs : p.before ≢ p.after
  pub indented : leading_space (first_line p.before) ≡ leading_space (first_line p.after)

-- The file that Validate has read, and the checks that it has passed.
record IsChecked (os : Os) (p : Proposal) (root : String) (files : Files) (full : String)
    (text : Bytes) : Type 0 where
  leads : os.resolve root p.path files ≡ ok full
  there : lookup full files ≡ some text
  once : judge (occurrences zero p.before text) p.path ≡ ok tt
  indent : check_indent p.before p.after ≡ ok tt
  differs : same_bytes p.before p.after ≡ false
  some_text : is_empty p.before ≡ false

validate-IsChecked :
    (os : Os) (p : Proposal) (root : String) (files : Files)
    → validate os p root files ≡ ok tt
    → (full : String) × (text : Bytes) × IsChecked os p root files full text
unfolding validate
validate-IsChecked os p root files h = resolved (os.resolve root p.path files) refl
  where
    found :
        (full : String)
        → os.resolve root p.path files ≡ ok full
        → (o : Option Bytes) → lookup full files ≡ o
        → (full : String) × (text : Bytes) × IsChecked os p root files full text
    found full leads none e = absurd (ground arith)
    found full leads (some text) e = (
      full,
      text,
      record {
        leads = leads;
        there = e;
        once = ground arith;
        indent = ground arith;
        differs = ground arith;
        some_text = ground arith;
      },
    )

    resolved :
        (r : Result String)
        → os.resolve root p.path files ≡ r
        → (full : String) × (text : Bytes) × IsChecked os p root files full text
    resolved (err x) e = absurd (ground arith)
    resolved (ok full) e = found full e (lookup full files) refl

judge-once : (n : ℕ) (path : String) → judge n path ≡ ok tt → n ≡ 1
judge-once n path h = ground arith

placed :
    (part text : Bytes)
    → is_empty part ≡ false
    → occurrences zero part text ≡ 1
    → (u : Bytes) × (v : Bytes) × IsFirst part text u v
      × IsWithout part v
      × ((new : Bytes) → replace_first part new text ≡ u ++ new ++ v)
placed [] text some_text h = absurd (ground arith)
placed (x ∷ ps) text some_text h =
    let (u, v, is_first, without) = (once_iff x ps text).0 h in
    (u, v, is_first, without, λ new. replaced_once x ps text new u v is_first)

indented :
    (before after : Bytes)
    → check_indent before after ≡ ok tt
    → leading_space (first_line before) ≡ leading_space (first_line after)
unfolding check_indent
indented before after h =
    (same_bytes_iff (leading_space (first_line before)) (leading_space (first_line after))).0
      (ground arith)

verify_iff :
    (full : String) (updated : Bytes) (p : Proposal) (files : Files)
    → (verify full updated p files ≡ ok tt) ↔ (lookup full files ≡ some updated)
unfolding verify
verify_iff full updated p files = elim (Option-cases (lookup full files)) [
  | inl gone ↦ (λ h. absurd (ground arith), λ e. absurd (ground arith))
  | inr (again, there) ↦
      let (to, from) = same_bytes_iff again updated in
      (
        λ h. there ∙ ap some (to (ground arith)),
        λ e. let same = from (ground arith) in ground arith,
      )
]

-- Writing has failed and changed nothing; or the replacement is in its place, and the answer tells
-- whether the file then holds it.
abbrev pub IsWritten :
    Os → Proposal → Files → String → Bytes → Bytes → Files × Result (Unit {0}) → Type 0
IsWritten os p files full u v out =
    ((e : Error) × (os.fault ≡ some e) × (out ≡ (files, err e)))
    ⊎ ((os.fault ≡ none)
        × (out.0 ≡ os.before_check (insert full (u ++ p.after ++ v) files))
        × ((out.1 ≡ ok tt) ↔ (lookup full out.0 ≡ some (u ++ p.after ++ v))))

write-IsWritten :
    (os : Os) (p : Proposal) (full : String) (text : Bytes) (files : Files) (u v : Bytes)
    → replace_first p.before p.after text ≡ u ++ p.after ++ v
    → IsWritten os p files full u v (write os p full text files)
unfolding write
write-IsWritten os p full text files u v replaced = elim (Option-cases os.fault) [
  | inr (e, fails) ↦ inl (e, fails, rw fails refl)
  | inl fine ↦
      let seen = os.before_check (insert full (u ++ p.after ++ v) files) in
      let made : write os p full text files ≡ (seen, verify full (u ++ p.after ++ v) p seen) =
        rw (fine, replaced, write) refl in
      inr (
        fine,
        ap (λ out. out.0) made,
        subst
            (λ (out : Files × Result (Unit {0})).
              (out.1 ≡ ok tt) ↔ (lookup full out.0 ≡ some (u ++ p.after ++ v)))
            (sym made) (verify_iff full (u ++ p.after ++ v) p seen),
      )
]

applied :
    (os : Os) (p : Proposal) (root : String) (files : Files) (full : String) (text : Bytes)
    → os.before_read files ≡ files
    → validate os p root files ≡ ok tt
    → IsChecked os p root files full text
    → apply os p root files ≡ write os p full text files
unfolding apply
applied os p root files full text quiet passed checked =
    rw (passed, apply, quiet, checked.leads, quiet, checked.there, quiet) refl

-- If nobody changes the files between Validate and the read in Apply, Apply ends in one of these ways.
-- Validate refuses, and Apply answers the same and leaves the files as they are. Or the text to change
-- stands in the file in one place, and not again after its end, and the replacement differs from it and
-- is indented as it is; then either writing fails, with its error and with the files as they were; or
-- the file is replaced by itself with the replacement in that place, and Apply answers without an error
-- exactly if that is what the file then holds when it is read again.
pub apply_lem :
    (os : Os) (p : Proposal) (root : String) (files : Files)
    → os.before_read files ≡ files
    → ((e : Error) × (validate os p root files ≡ err e) × (apply os p root files ≡ (files, err e)))
      ⊎ ((full : String) × (u : Bytes) × (v : Bytes) × IsSafe os p root files full u v
          × IsWritten os p files full u v (apply os p root files))
unfolding apply
apply_lem os p root files quiet = decided (validate os p root files) refl
  where
    decided :
        (r : Result (Unit {0}))
        → validate os p root files ≡ r
        → ((e : Error) × (validate os p root files ≡ err e)
            × (apply os p root files ≡ (files, err e)))
          ⊎ ((full : String) × (u : Bytes) × (v : Bytes) × IsSafe os p root files full u v
              × IsWritten os p files full u v (apply os p root files))
    decided (err e) h = inl (e, h, ground arith)
    decided (ok _) h =
        let (full, text, checked) = validate-IsChecked os p root files h in
        let (u, v, is_first, without, replaced) =
          placed p.before text checked.some_text
            (judge-once (occurrences zero p.before text) p.path checked.once) in
        let done = applied os p root files full text quiet h checked in
        inr (
          full,
          u,
          v,
          record {
            leads = checked.leads;
            there = checked.there ∙ ap some is_first.split;
            first = subst (λ t. IsFirst p.before t u v) is_first.split is_first;
            once = without;
            differs = λ same.
                let yes = (same_bytes_iff p.before p.after).1 same in
                let other = checked.differs in absurd (ground arith);
            indented = indented p.before p.after checked.indent;
          },
          subst (IsWritten os p files full u v) (sym done)
              (write-IsWritten os p full text files u v (replaced p.after)),
        )
