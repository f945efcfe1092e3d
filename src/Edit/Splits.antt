-- ===== src/Edit/Splits.antt =====
-- Where a text stands in another one, by the searches of internal/edit/edit.go.
use heros_agent.Base.{
  ℕ, zero, suc, ◌≤◌, ◌≡◌, ◌≢◌, refl, sym, ◌∙◌, ap, subst, arith, true, false, [], ◌∷◌, ◌++◌, length,
  length-append, ◌↔◌, ◌⊎◌, inl, inr, Bool-cases,
}
use heros_agent.Edit.{Bytes, same_bytes, begins, drop, occurrences, replace_first}

pub same_bytes_iff : (xs ys : Bytes) → (same_bytes xs ys ≡ true) ↔ (xs ≡ ys)
unfolding same_bytes
same_bytes_iff [] [] = (λ h. refl, λ e. refl)
same_bytes_iff [] (y ∷ ys) = (λ h. absurd (ground arith), λ e. absurd (ground arith))
same_bytes_iff (x ∷ xs) [] = (λ h. absurd (ground arith), λ e. absurd (ground arith))
same_bytes_iff (x ∷ xs) (y ∷ ys) =
    let (to, from) = same_bytes_iff xs ys in
    (
      λ h. let rest = to (ground arith) in ground arith,
      λ e. let rest = from (ground arith) in ground arith,
    )

begins-split :
    (part text : Bytes) → begins part text ≡ true → text ≡ part ++ drop (length part) text
unfolding begins
begins-split [] text h = refl
begins-split (x ∷ part) [] h = absurd (ground arith)
begins-split (x ∷ part) (y ∷ text) h =
    let rest = begins-split part text (ground arith) in
    let same : y ≡ x = ground arith in λ i. same i ∷ rest i

begins-append : (part v : Bytes) → begins part (part ++ v) ≡ true
unfolding begins
begins-append [] v = refl
begins-append (x ∷ part) v = let rest = begins-append part v in ground arith

skip_occurrences :
    (k : ℕ) (part text : Bytes) → occurrences k part text ≡ occurrences zero part (drop k text)
unfolding occurrences
skip_occurrences zero part text = refl
skip_occurrences (suc k) part [] = refl
skip_occurrences (suc k) part (x ∷ text) = skip_occurrences k part text

-- The part stands between the two, and not further to the left.
pub record IsFirst (part text u v : Bytes) : Type 0 where
  pub split : text ≡ u ++ part ++ v
  pub first : (u' v' : Bytes) → text ≡ u' ++ part ++ v' → length u ≤ length u'

abbrev pub IsWithout : Bytes → Bytes → Type 0
IsWithout part text = (u v : Bytes) → text ≢ u ++ part ++ v

not_begins :
    (part text u v : Bytes)
    → begins part text ≡ false
    → text ≡ u ++ part ++ v
    → (y : ℕ) × (u' : Bytes) × (u ≡ y ∷ u')
not_begins part text [] v other e =
    let yes : begins part text ≡ true =
      subst (λ t. begins part t ≡ true) (sym e) (begins-append part v) in
    absurd (ground arith)
not_begins part text (y ∷ u) v other e = (y, u, refl)

module _ (x : ℕ) (ps : Bytes) where
  abbrev part : Bytes
  part = x ∷ ps

  -- None is counted where there is none; otherwise the first is counted and then those after it, and it
  -- is the one that is replaced.
  occurrences-cases :
      (text : Bytes)
      → ((occurrences zero part text ≡ 0) × IsWithout part text)
        ⊎ ((u : Bytes) × (v : Bytes) × IsFirst part text u v
            × (occurrences zero part text ≡ suc (occurrences zero part v))
            × ((new : Bytes) → replace_first part new text ≡ u ++ new ++ v))
  unfolding occurrences replace_first
  occurrences-cases [] = inl (refl, λ u v e. nowhere u v e)
    where
      nowhere : (u v : Bytes) → [] ≢ u ++ part ++ v
      nowhere [] v e = absurd (ground arith)
      nowhere (y ∷ u) v e = absurd (ground arith)
  occurrences-cases (y ∷ text) = elim (Bool-cases (begins part (y ∷ text))) [
    | inl here ↦
        let v = drop (length ps) text in
        inr (
          [],
          v,
          record { split = begins-split part (y ∷ text) here; first = λ u' v' e. omega arith },
          rw here (ap suc (skip_occurrences (length ps) part text)),
          λ new. rw here refl,
        )
    | inr other ↦ elim (occurrences-cases text) [
      | inl (none_there, without) ↦ inl (
        rw other none_there,
        λ u v e.
            let (z, u', is) = not_begins part (y ∷ text) u v other e in without u' v (ground arith),
      )
      | inr (u, v, is_first, counted, replaced) ↦ inr (
        y ∷ u,
        v,
        record {
          split = ap (λ t. y ∷ t) is_first.split;
          first = λ u' v' e.
              let (z, u'', is) = not_begins part (y ∷ text) u' v' other e in
              let further = is_first.first u'' v' (ground arith) in ground arith;
        },
        rw other counted,
        λ new. rw other (ap (λ t. y ∷ t) (replaced new)),
      )
    ]
  ]

  occurrences-none : (text : Bytes) → (occurrences zero part text ≡ 0) ↔ IsWithout part text
  occurrences-none text = elim (occurrences-cases text) [
    | inl (none_there, without) ↦ (λ h. without, λ w. none_there)
    | inr (u, v, is_first, counted, _) ↦
        (λ h. absurd (ground arith), λ w. absurd (w u v is_first.split))
  ]

  cancel : (u w xs ys : Bytes) → length u ≡ length w → u ++ xs ≡ w ++ ys → xs ≡ ys
  cancel [] [] xs ys same e = e
  cancel [] (z ∷ w) xs ys same e = absurd (omega arith)
  cancel (y ∷ u) [] xs ys same e = absurd (omega arith)
  cancel (y ∷ u) (z ∷ w) xs ys same e = cancel u w xs ys (omega arith) (ground arith)

  same_length : (u w : Bytes) → length u ≡ length w → length (u ++ part) ≡ length (w ++ part)
  same_length u w e = omega (arith, e, length-append u part, length-append w part)

  -- The part is counted once exactly if it stands in one place, and not again after its end.
  pub once_iff :
      (text : Bytes)
      → (occurrences zero part text ≡ 1)
        ↔ ((u : Bytes) × (v : Bytes) × IsFirst part text u v × IsWithout part v)
  once_iff text = elim (occurrences-cases text) [
    | inl (none_there, without) ↦
        (λ h. absurd (ground arith), λ (u, v, is_first, _). absurd (without u v is_first.split))
    | inr (u, v, is_first, counted, _) ↦ (
      λ h. (u, v, is_first, (occurrences-none v).0 (ground arith)),
      λ (w, z, also, without).
          let low = is_first.first w z also.split in
          let high = also.first u v is_first.split in
          let long = same_length u w (omega (arith, low, high)) in
          let same : v ≡ z =
            cancel (u ++ part) (w ++ part) v z long (sym is_first.split ∙ also.split) in
          let no_more = (occurrences-none z).1 without in
          counted ∙ ap (λ t. suc (occurrences zero part t)) same ∙ ap suc no_more,
    )
  ]

  -- What Replace makes of it.
  pub replaced_once :
      (text new u v : Bytes) → IsFirst part text u v → replace_first part new text ≡ u ++ new ++ v
  replaced_once text new u v is_first = elim (occurrences-cases text) [
    | inl (_, without) ↦ absurd (without u v is_first.split)
    | inr (w, z, also, _, replaced) ↦
        let low = is_first.first w z also.split in
        let high = also.first u v is_first.split in
        let even : length u ≡ length w = omega (arith, low, high) in
        let whole = sym is_first.split ∙ also.split in
        let long = same_length u w even in
        let same : v ≡ z = cancel (u ++ part) (w ++ part) v z long whole in
        let lead : u ≡ w =
          prefix u w part part even (prefix (u ++ part) (w ++ part) v z long whole) in
        replaced new ∙ (λ i. sym lead i ++ new ++ sym same i)
  ]
    where
      prefix : (u w xs ys : Bytes) → length u ≡ length w → u ++ xs ≡ w ++ ys → u ≡ w
      prefix [] [] xs ys same e = refl
      prefix [] (z ∷ w) xs ys same e = absurd (omega arith)
      prefix (y ∷ u) [] xs ys same e = absurd (omega arith)
      prefix (y ∷ u) (z ∷ w) xs ys same e =
          let rest = prefix u w xs ys (omega arith) (ground arith) in
          let first : y ≡ z = ground arith in λ i. first i ∷ rest i
