-- ===== src/Prelude/Map.antt =====
-- `BTreeMap<String, V>` as a list of entries, each key once, in any order; where
-- the program shows the order of the keys, Vault/Order sorts the entries.
use mathlib.Core.Path.{◌≡◌, refl}
use mathlib.Core.Bool.{Bool, true, false}
use mathlib.Core.Logic.{inl, inr}
use mathlib.Core.Option.{Option, none, some}
use mathlib.Core.List.{List, [], ◌∷◌}
use native.Mathlib.Omega.{arith}
use lockrail.Prelude.Tests.{if◌then◌else◌, Bool-cases, Option-cases}
use lockrail.Prelude.Text.{Text, text_eq, text_eq_iff}

abbrev pub Map {ℓ} : Type ℓ → Type ℓ
Map V = List (Text × V)

module _ {ℓ} {V : Type ℓ} where
  unfoldable pub get : Map V → Text → Option V
  get [] k = none
  get ((j, v) ∷ m) k = if text_eq j k then some v else get m k

  unfoldable pub insert : Map V → Text → V → Map V
  insert [] k v = (k, v) ∷ []
  insert ((j, w) ∷ m) k v = if text_eq j k then (j, v) ∷ m else (j, w) ∷ insert m k v

  -- `map.retain(|_, v| p(v))`
  unfoldable pub retain : (V → Bool) → Map V → Map V
  retain p [] = []
  retain p ((j, v) ∷ m) = let rest = retain p m in if p v then (j, v) ∷ rest else rest

  unfoldable pub remove : Map V → Text → Map V
  remove [] k = []
  remove ((j, v) ∷ m) k = if text_eq j k then m else (j, v) ∷ remove m k

  pub get-insert :
      (m : Map V) (k j : Text) (v : V)
      → get (insert m k v) j ≡ (if text_eq k j then some v else get m j)
  unfolding get insert
  get-insert [] k j v = refl
  get-insert ((i, w) ∷ m) k j v =
      ground (arith, text_eq_iff k j, text_eq_iff i k, text_eq_iff i j, get-insert m k j v)

  -- What passes the test stays, and nothing is added.
  pub get-retain_keeps :
      (p : V → Bool) (m : Map V) (k : Text) {v : V}
      → get m k ≡ some v
      → p v ≡ true
      → get (retain p m) k ≡ some v
  unfolding get retain
  get-retain_keeps p [] k h t = h
  get-retain_keeps p ((j, w) ∷ m) k {v} h t = elim (Bool-cases (text_eq j k)) [
    | inl e ↦ ground arith
    | inr n ↦ ground (arith, get-retain_keeps p m k {v = v} (ground arith) t)
  ]

  pub get-retain_none :
      (p : V → Bool) (m : Map V) (k : Text) → get m k ≡ none → get (retain p m) k ≡ none
  unfolding get retain
  get-retain_none p [] k h = h
  get-retain_none p ((j, w) ∷ m) k h = elim (Bool-cases (text_eq j k)) [
    | inl e ↦ ground arith
    | inr n ↦ ground (arith, get-retain_none p m k (ground arith))
  ]

-- Every key stands once.
abbrev pub Distinct {ℓ} : {V : Type ℓ} → Map V → Type ℓ
Distinct [] = Unit
Distinct ((j, v) ∷ m) = (get m j ≡ none) × Distinct m

module _ {ℓ} {V : Type ℓ} where
  pub insert-Distinct : (m : Map V) (k : Text) (v : V) → Distinct m → Distinct (insert m k v)
  unfolding get insert
  insert-Distinct [] k v d = (refl, tt)
  insert-Distinct ((j, w) ∷ m) k v (n, d) = elim (Bool-cases (text_eq j k)) [
    | inl e ↦ rw e (n, d)
    | inr e ↦ rw e (
      ground (arith, get-insert m k j v, text_eq_iff k j, text_eq_iff j k),
      insert-Distinct m k v d,
    )
  ]

  pub retain-Distinct : (p : V → Bool) (m : Map V) → Distinct m → Distinct (retain p m)
  unfolding retain
  retain-Distinct p [] d = tt
  retain-Distinct p ((j, w) ∷ m) (n, d) = elim (Bool-cases (p w)) [
    | inl e ↦ rw e (get-retain_none p m j n, retain-Distinct p m d)
    | inr e ↦ rw e (retain-Distinct p m d)
  ]

  -- What fails the test is gone.
  pub get-retain_drops :
      (p : V → Bool) (m : Map V) (k : Text) {v : V}
      → Distinct m
      → get m k ≡ some v
      → p v ≡ false
      → get (retain p m) k ≡ none
  unfolding get retain
  get-retain_drops p [] k d h t = cc
  get-retain_drops p ((j, w) ∷ m) k {v} (n, d) h t = elim (Bool-cases (text_eq j k)) [
    | inl e ↦ ground (arith, get-retain_none p m j n, text_eq_iff j k)
    | inr e ↦ ground (arith, get-retain_drops p m k {v = v} d (ground arith) t)
  ]

-- What a removal leaves was there, and the key is gone.
module _ {ℓ} {V : Type ℓ} where
  pub get-remove :
      (m : Map V) (k j : Text)
      → Distinct m
      → get (remove m k) j ≡ (if text_eq k j then none else get m j)
  unfolding get remove
  get-remove [] k j d = ground arith
  get-remove ((i, w) ∷ m) k j (n, d) = elim (Bool-cases (text_eq i k)) [
    | inl e ↦ ground (arith, text_eq_iff i k, text_eq_iff i j, text_eq_iff k j)
    | inr e ↦ ground (arith, text_eq_iff i k, text_eq_iff i j, text_eq_iff k j, get-remove m k j d)
  ]

  pub remove-Distinct : (m : Map V) (k : Text) → Distinct m → Distinct (remove m k)
  unfolding get remove
  remove-Distinct [] k d = tt
  remove-Distinct ((j, w) ∷ m) k (n, d) = elim (Bool-cases (text_eq j k)) [
    | inl e ↦ rw e d
    | inr e ↦ rw e (ground (arith, get-remove m k j d), remove-Distinct m k d)
  ]

-- The value of a key, if it passes a test.
abbrev pub passing {ℓ} : {V : Type ℓ} → (V → Bool) → Option V → Option V
passing p none = none
passing p (some v) = if p v then some v else none

-- In a map with each key once, `retain` filters the value of every key.
pub get-retain {ℓ} :
    {V : Type ℓ} (p : V → Bool) (m : Map V) (k : Text)
    → Distinct m
    → get (retain p m) k ≡ passing p (get m k)
get-retain p m k d = elim (Option-cases (get m k)) [
  | inl n ↦ rw n (get-retain_none p m k n)
  | inr (v, e) ↦ elim (Bool-cases (p v)) [
    | inl t ↦ rw (e, t) (get-retain_keeps p m k e t)
    | inr f ↦ rw (e, f) (get-retain_drops p m k d e f)
  ]
]
