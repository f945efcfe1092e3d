-- ===== src/Base/Maps.antt =====
-- Go's `map[string]V` as a list of entries. A write to a key that is there keeps its place, a new key
-- goes to the end; Go leaves the order of iteration open, and the list's order is one of its choices.
use Prim.Native.String.{String}
use mathlib.Core.Path.{◌≡◌, refl, sym}
use mathlib.Core.Logic.{◌≢◌, inl, inr}
use mathlib.Core.Bool.{true, false}
use mathlib.Core.Option.{Option, none, some}
use mathlib.Core.List.{List, [], ◌∷◌, Memᴰ}
use native.Mathlib.Omega.{arith}
use text.Mathlib.Text.{◌==◌ as str_eq}
use text.Mathlib.TextEquality.{eq_iff}
use text.Mathlib.TextPositions.{eq_refl}
use heros_agent.Base.Tests.{if◌then◌else◌, Bool-cases}

abbrev pub Map {ℓ} : Type ℓ → Type ℓ
Map V = List (String × V)

-- A key is there exactly when its test computes so.
pub str_eq-true : (s t : String) → str_eq s t ≡ true → s ≡ t
str_eq-true s t h = (eq_iff s t).0 h

pub str_eq-false : (s t : String) → s ≢ t → str_eq s t ≡ false
str_eq-false s t h = elim (Bool-cases (str_eq s t)) [
  | inl e ↦ absurd (h (str_eq-true s t e))
  | inr e ↦ e
]

module _ {ℓ} {V : Type ℓ} where
  unfoldable pub lookup : String → Map V → Option V
  lookup key [] = none
  lookup key ((at, value) ∷ others) = if str_eq at key then some value else lookup key others

  -- m[key] = value
  unfoldable pub insert : String → V → Map V → Map V
  insert key value [] = (key, value) ∷ []
  insert key value ((at, old) ∷ others) =
      if str_eq at key then (at, value) ∷ others else (at, old) ∷ insert key value others

  unfoldable pub delete : String → Map V → Map V
  delete k [] = []
  delete k ((j, v) ∷ m) = let rest = delete k m in if str_eq j k then rest else (j, v) ∷ rest

  abbrev pub keys : Map V → List String
  keys [] = []
  keys ((k, v) ∷ m) = k ∷ keys m

  abbrev pub values : Map V → List V
  values [] = []
  values ((k, v) ∷ m) = v ∷ values m

  pub lookup-insert :
      (key other : String) (value : V) (tasks : Map V)
      → lookup other (insert key value tasks)
        ≡ (if str_eq key other then some value else lookup other tasks)
  unfolding lookup insert
  lookup-insert key other value [] = refl
  lookup-insert key other value ((at, old) ∷ others) =
      let later = lookup-insert key other value others in
      ground (arith, later, eq_iff at key, eq_iff at other, eq_iff key other)

  pub lookup-insert_self :
      (key : String) (value : V) (tasks : Map V) → lookup key (insert key value tasks) ≡ some value
  lookup-insert_self key value tasks = rw (lookup-insert key key value tasks, eq_refl key)

  pub lookup-insert_ne :
      (k j : String) (v : V) (m : Map V) → str_eq k j ≡ false → lookup j (insert k v m) ≡ lookup j m
  lookup-insert_ne k j v m h = rw (lookup-insert, h)

  pub lookup-delete :
      (key other : String) (tasks : Map V)
      → lookup other (delete key tasks) ≡ (if str_eq key other then none else lookup other tasks)
  unfolding lookup delete
  lookup-delete key other [] = ground arith
  lookup-delete key other ((at, old) ∷ others) =
      let later = lookup-delete key other others in
      ground (arith, later, eq_iff at key, eq_iff at other, eq_iff key other)

  pub keys-insert :
      (k : String) (v w : V) (m : Map V) → lookup k m ≡ some w → keys (insert k v m) ≡ keys m
  unfolding lookup insert
  keys-insert k v w [] h = ground arith
  keys-insert k v w ((i, u) ∷ m) h = ground (arith, keys-insert k v w m)

  pub Memᴰ-keys : (k : String) (v : V) (m : Map V) → lookup k m ≡ some v → Memᴰ k (keys m)
  unfolding lookup
  Memᴰ-keys k v [] h = ground arith
  Memᴰ-keys k v ((j, w) ∷ m) h = elim (Bool-cases (str_eq j k)) [
    | inl e ↦ Memᴰ.head (sym (str_eq-true j k e))
    | inr e ↦ Memᴰ.tail (Memᴰ-keys k v m (ground arith))
  ]

  pub lookup_of_Memᴰ : (k : String) (m : Map V) → Memᴰ k (keys m) → (v : V) × (lookup k m ≡ some v)
  unfolding lookup
  lookup_of_Memᴰ k [] h = elim h [ ]
  lookup_of_Memᴰ k ((j, w) ∷ m) (Memᴰ.head p) = (w, ground (arith, eq_iff j k))
  lookup_of_Memᴰ k ((j, w) ∷ m) (Memᴰ.tail p) = elim (Bool-cases (str_eq j k)) [
    | inl e ↦ (w, ground arith)
    | inr e ↦ let (v, q) = lookup_of_Memᴰ k m p in (v, ground arith)
  ]

  pub mem-values : (k : String) (v : V) (m : Map V) → lookup k m ≡ some v → Memᴰ v (values m)
  unfolding lookup
  mem-values k v [] h = ground arith
  mem-values k v ((j, w) ∷ m) h = elim (Bool-cases (str_eq j k)) [
    | inl e ↦ Memᴰ.head (ground arith)
    | inr e ↦ Memᴰ.tail (mem-values k v m (ground arith))
  ]
