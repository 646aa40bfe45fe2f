-- ===== src/Prelude/Map.antt =====
-- Go maps with numeric keys, as association lists. Iteration order is that of the list.
use kwik.Prelude.Lists.{All}
use kwik.Prelude.Tests.{Bool-cases, ◌==◌, if◌then◌else◌}
use Prim.Native.Nat.{ℕ}
use mathlib.Core.Logic.{inl, inr}
use mathlib.Core.Path.{◌≡◌, refl, subst}
use mathlib.Core.Bool.{Bool, true, false}
use mathlib.Core.Option.{Option, none, some}
use mathlib.Core.List.{List, [], ◌∷◌}
use native.Mathlib.Omega.{arith}

abbrev pub Map {ℓ} : Type ℓ → Type ℓ
Map V = List (ℕ × V)

module _ {ℓ} {V : Type ℓ} where
  -- `v, ok := m[k]`
  unfoldable pub lookup : ℕ → Map V → Option V
  lookup k [] = none
  lookup k (entry ∷ m) = if entry.0 == k then some entry.1 else lookup k m

  -- `m[k] = v`
  unfoldable pub insert : ℕ → V → Map V → Map V
  insert k v [] = (k, v) ∷ []
  insert k v (entry ∷ m) = if entry.0 == k then (k, v) ∷ m else entry ∷ insert k v m

  -- `delete(m, k)`
  unfoldable pub delete : ℕ → Map V → Map V
  delete k [] = []
  delete k (entry ∷ m) = if entry.0 == k then delete k m else entry ∷ delete k m

  abbrev pub is_some : Option V → Bool
  is_some none = false
  is_some (some v) = true

  -- `_, ok := m[k]`
  abbrev pub has : ℕ → Map V → Bool
  has k m = is_some (lookup k m)

  abbrev pub or_else : V → Option V → V
  or_else d none = d
  or_else d (some v) = v

  -- `m[k]`, with the zero value of a missing key.
  abbrev pub get_or : ℕ → V → Map V → V
  get_or k d m = or_else d (lookup k m)

  pub lookup-insert :
      (j k : ℕ) (v : V) (m : Map V)
      → lookup j (insert k v m) ≡ (if k == j then some v else lookup j m)
  unfolding lookup insert
  lookup-insert j k v [] = refl
  lookup-insert j k v (entry ∷ m) = ground (arith, lookup-insert j k v m)

  pub lookup-delete :
      (j k : ℕ) (m : Map V) → lookup j (delete k m) ≡ (if k == j then none else lookup j m)
  unfolding lookup delete
  lookup-delete j k [] = ground arith
  lookup-delete j k (entry ∷ m) = ground (arith, lookup-delete j k m)

-- A property of all entries.
module _ {ℓ κ} {V : Type ℓ} (P : ℕ → V → Type κ) where
  abbrev pub Every : Map V → Type κ
  Every m = All (λ (entry : ℕ × V). P entry.0 entry.1) m

  pub Every-insert : (k : ℕ) (v : V) (m : Map V) → P k v → Every m → Every (insert k v m)
  unfolding insert
  Every-insert k v [] h a = (h, tt)
  Every-insert k v (entry ∷ m) h a = elim (Bool-cases (entry.0 == k)) [
    | inl e ↦ rw e (h, a.1)
    | inr e ↦ rw e (a.0, Every-insert k v m h a.1)
  ]

  pub Every-delete : (k : ℕ) (m : Map V) → Every m → Every (delete k m)
  unfolding delete
  Every-delete k [] a = tt
  Every-delete k (entry ∷ m) a = elim (Bool-cases (entry.0 == k)) [
    | inl e ↦ rw e (Every-delete k m a.1)
    | inr e ↦ rw e (a.0, Every-delete k m a.1)
  ]

  pub Every-lookup : (k : ℕ) (v : V) (m : Map V) → Every m → lookup k m ≡ some v → P k v
  unfolding lookup
  Every-lookup k v [] a h = cc
  Every-lookup k v (entry ∷ m) a h = elim (Bool-cases (entry.0 == k)) [
    | inl e ↦
        let same : entry.0 ≡ k = ground (arith, e) in
        let found : some entry.1 ≡ some v = rw e at h in
        let value : entry.1 ≡ v = cc found in subst (λ j. P j v) same (subst (P entry.0) value a.0)
    | inr e ↦ Every-lookup k v m a.1 (rw e at h)
  ]

pub Every-weaken {ℓ κ μ} :
    {V : Type ℓ} {P : ℕ → V → Type κ} {Q : ℕ → V → Type μ} (m : Map V)
    → ((k : ℕ) (v : V) → P k v → Q k v)
    → Every P m
    → Every Q m
Every-weaken [] weaken a = tt
Every-weaken (entry ∷ m) weaken a = (weaken entry.0 entry.1 a.0, Every-weaken m weaken a.1)
