-- ===== src/Base/Sorting.antt =====
-- Go's `sort.Slice`, and its use with `less` on a text that each element has, in the order of Go's
-- strings.
use Prim.Native.String.{String, compare}
use mathlib.Core.Path.{◌≡◌, refl, sym, subst}
use mathlib.Core.Logic.{◌⊎◌, inl, inr}
use mathlib.Core.Bool.{Bool}
use mathlib.Core.List.{List, [], ◌∷◌, Memᴰ}
use mathlib.Core.List.Memᴰ
use text.Mathlib.Text.{is_le}
use heros_agent.Base.Tests.{if◌then◌else◌, Bool-cases}

module _ {ℓ} {A : Type ℓ} (le : A → A → Bool) where
  abbrev pub insert_le : A → List A → List A
  insert_le a [] = a ∷ []
  insert_le a (b ∷ bs) = if le a b then a ∷ b ∷ bs else b ∷ insert_le a bs

  abbrev pub sort_le : List A → List A
  sort_le [] = []
  sort_le (a ∷ as_) = insert_le a (sort_le as_)

  mem_of_insert_le : (a : A) (bs : List A) (x : A) → Memᴰ x (insert_le a bs) → (x ≡ a) ⊎ Memᴰ x bs
  mem_of_insert_le a [] x m = Memᴰ.cases_cons m
  mem_of_insert_le a (b ∷ bs) x m = elim (Bool-cases (le a b)) [
    | inl e ↦ Memᴰ.cases_cons (rw (e, insert_le) at m)
    | inr e ↦ elim (Memᴰ.cases_cons (rw (e, insert_le) at m)) [
      | inl here ↦ inr (Memᴰ.head here)
      | inr later ↦ elim (mem_of_insert_le a bs x later) [
        | inl same ↦ inl same
        | inr there ↦ inr (Memᴰ.tail there)
      ]
    ]
  ]

  mem-insert_le_self : (a : A) (bs : List A) → Memᴰ a (insert_le a bs)
  mem-insert_le_self a [] = Memᴰ.head refl
  mem-insert_le_self a (b ∷ bs) = elim (Bool-cases (le a b)) [
    | inl e ↦ rw e (Memᴰ.head refl)
    | inr e ↦ rw e (Memᴰ.tail (mem-insert_le_self a bs))
  ]

  mem-insert_le : (a : A) (bs : List A) (x : A) → Memᴰ x bs → Memᴰ x (insert_le a bs)
  mem-insert_le a [] x m = elim m [ ]
  mem-insert_le a (b ∷ bs) x (Memᴰ.head e) = elim (Bool-cases (le a b)) [
    | inl h ↦ rw h (Memᴰ.tail (Memᴰ.head e))
    | inr h ↦ rw h (Memᴰ.head e)
  ]
  mem-insert_le a (b ∷ bs) x (Memᴰ.tail m) = elim (Bool-cases (le a b)) [
    | inl h ↦ rw h (Memᴰ.tail (Memᴰ.tail m))
    | inr h ↦ rw h (Memᴰ.tail (mem-insert_le a bs x m))
  ]

  -- Sorting keeps exactly the members.
  pub mem_of_sort_le : (xs : List A) (x : A) → Memᴰ x (sort_le xs) → Memᴰ x xs
  mem_of_sort_le [] x m = m
  mem_of_sort_le (a ∷ xs) x m = elim (mem_of_insert_le a (sort_le xs) x m) [
    | inl e ↦ Memᴰ.head e
    | inr later ↦ Memᴰ.tail (mem_of_sort_le xs x later)
  ]

  pub mem-sort_le : (xs : List A) (x : A) → Memᴰ x xs → Memᴰ x (sort_le xs)
  mem-sort_le [] x m = elim m [ ]
  mem-sort_le (a ∷ xs) x (Memᴰ.head e) =
      subst (λ k. Memᴰ k (insert_le a (sort_le xs))) (sym e) (mem-insert_le_self a (sort_le xs))
  mem-sort_le (a ∷ xs) x (Memᴰ.tail m) = mem-insert_le a (sort_le xs) x (mem-sort_le xs x m)

abbrev string_le : String → String → Bool
string_le a b = is_le (compare a b)

module _ {ℓ} {A : Type ℓ} (key : A → String) where
  abbrev by_key : A → A → Bool
  by_key a b = string_le (key a) (key b)

  abbrev pub sort_by : List A → List A
  sort_by xs = sort_le by_key xs

  pub mem_of_sort_by : (xs : List A) (x : A) → Memᴰ x (sort_by xs) → Memᴰ x xs
  mem_of_sort_by xs x m = mem_of_sort_le by_key xs x m

  pub mem-sort_by : (xs : List A) (x : A) → Memᴰ x xs → Memᴰ x (sort_by xs)
  mem-sort_by xs x m = mem-sort_le by_key xs x m
