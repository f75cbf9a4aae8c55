-- ===== src/Base/Dicts.antt =====
-- A Python dict keyed by identifiers, in insertion order.
use Prim.Native.Nat.{ℕ}
use mathlib.Core.Path.{◌≡◌, refl, ap}
use mathlib.Core.Bool.{false, ◌||◌}
use mathlib.Core.Logic.{inl, inr}
use fleet_lm.Base.Lists.{contains, Distinct}
use mathlib.Core.List.{List, [], ◌∷◌}
use mathlib.Core.Option
use mathlib.Core.Option.{Option, none, some}
use native.Mathlib.Omega.{arith}
use fleet_lm.Base.Tests.{Bool-cases, ◌==◌, if◌then◌else◌}

abbrev pub Dict {ℓ} : Type ℓ → Type ℓ
Dict V = List (ℕ × V)

module _ {ℓ} {V : Type ℓ} where
  -- `d.get(k)`
  unfoldable pub lookup : ℕ → Dict V → Option V
  lookup k [] = none
  lookup k ((j, v) ∷ d) = if k == j then some v else lookup k d

  -- `d[k] = v`
  unfoldable pub insert : ℕ → V → Dict V → Dict V
  insert k v [] = (k, v) ∷ []
  insert k v ((j, w) ∷ d) = if k == j then (j, v) ∷ d else (j, w) ∷ insert k v d

  -- `d.pop(k, None)`
  unfoldable pub erase : ℕ → Dict V → Dict V
  erase k [] = []
  erase k ((j, w) ∷ d) = if k == j then d else (j, w) ∷ erase k d

  -- A method call that changes the object stored at `k`, when there is one.
  unfoldable pub modify : ℕ → (V → V) → Dict V → Dict V
  modify k f [] = []
  modify k f ((j, w) ∷ d) = if k == j then (j, f w) ∷ d else (j, w) ∷ modify k f d

  -- A loop over `d.values()` that changes each object.
  unfoldable pub map_values : (V → V) → Dict V → Dict V
  map_values f [] = []
  map_values f ((j, w) ∷ d) = (j, f w) ∷ map_values f d

  -- `d.values()`
  unfoldable pub values : Dict V → List V
  values [] = []
  values ((j, w) ∷ d) = w ∷ values d

  unfoldable pub keys : Dict V → List ℕ
  keys [] = []
  keys ((j, w) ∷ d) = j ∷ keys d

  pub lookup-insert :
      (j k : ℕ) (v : V) (d : Dict V)
      → lookup j (insert k v d) ≡ (if j == k then some v else lookup j d)
  unfolding lookup insert
  lookup-insert j k v [] = refl
  lookup-insert j k v ((i, w) ∷ d) = ground (arith, lookup-insert j k v d)

  pub lookup-modify :
      (j k : ℕ) (f : V → V) (d : Dict V)
      → lookup j (modify k f d) ≡ (if j == k then Option.map f (lookup j d) else lookup j d)
  unfolding lookup modify
  lookup-modify j k f [] = ground arith
  lookup-modify j k f ((i, w) ∷ d) = ground (arith, lookup-modify j k f d)

  pub lookup-modify_same :
      (k : ℕ) (f : V → V) (d : Dict V) → lookup k (modify k f d) ≡ Option.map f (lookup k d)
  lookup-modify_same k f d = ground (arith, lookup-modify k k f d)

  pub lookup-map_values :
      (j : ℕ) (f : V → V) (d : Dict V) → lookup j (map_values f d) ≡ Option.map f (lookup j d)
  unfolding lookup map_values
  lookup-map_values j f [] = refl
  lookup-map_values j f ((i, w) ∷ d) = ground (arith, lookup-map_values j f d)

  pub keys-contains : (k : ℕ) (d : Dict V) → contains k (keys d) ≡ false → lookup k d ≡ none
  unfolding lookup keys contains
  keys-contains k [] c = refl
  keys-contains k ((i, w) ∷ d) c = ground (arith, keys-contains k d)

  -- A dict has no key twice, so `pop` leaves none of the key.
  pub lookup-erase :
      (j k : ℕ) (d : Dict V)
      → Distinct (keys d)
      → lookup j (erase k d) ≡ (if j == k then none else lookup j d)
  unfolding lookup erase keys
  lookup-erase j k [] u = ground arith
  lookup-erase j k ((i, w) ∷ d) u = elim (Bool-cases (j == k)) [
    | inl at ↦
        let same : j ≡ k = ground arith in
        ground (arith, lookup-erase j k d u.1, keys-contains i d u.0)
    | inr off ↦ ground (arith, lookup-erase j k d u.1)
  ]

  pub contains-keys-erase :
      (j k : ℕ) (d : Dict V) → contains j (keys d) ≡ false → contains j (keys (erase k d)) ≡ false
  unfolding erase keys contains
  contains-keys-erase j k [] c = refl
  contains-keys-erase j k ((i, w) ∷ d) c = ground (arith, contains-keys-erase j k d)

  pub erase-Distinct : (k : ℕ) (d : Dict V) → Distinct (keys d) → Distinct (keys (erase k d))
  unfolding erase keys
  erase-Distinct k [] u = tt
  erase-Distinct k ((i, w) ∷ d) u =
      ground (arith, contains-keys-erase i k d, erase-Distinct k d u.1)

  pub contains-keys-insert :
      (j k : ℕ) (v : V) (d : Dict V)
      → contains j (keys (insert k v d)) ≡ j == k || contains j (keys d)
  unfolding insert keys contains
  contains-keys-insert j k v [] = refl
  contains-keys-insert j k v ((i, w) ∷ d) = ground (arith, contains-keys-insert j k v d)

  pub insert-Distinct :
      (k : ℕ) (v : V) (d : Dict V) → Distinct (keys d) → Distinct (keys (insert k v d))
  unfolding insert keys contains
  insert-Distinct k v [] u = (refl, tt)
  insert-Distinct k v ((i, w) ∷ d) u =
      ground (arith, contains-keys-insert i k v d, insert-Distinct k v d u.1)

  pub lookup-insert_same : (k : ℕ) (v : V) (d : Dict V) → lookup k (insert k v d) ≡ some v
  lookup-insert_same k v d = ground (arith, lookup-insert k k v d)

  pub keys-modify : (k : ℕ) (f : V → V) (d : Dict V) → keys (modify k f d) ≡ keys d
  unfolding keys modify
  keys-modify k f [] = refl
  keys-modify k f ((j, v) ∷ d) = elim (Bool-cases (k == j)) [
    | inl e ↦ rw (e, keys) refl
    | inr e ↦ rw (e, keys) (ap (λ ks. j ∷ ks) (keys-modify k f d))
  ]

  pub keys-map_values : (f : V → V) (d : Dict V) → keys (map_values f d) ≡ keys d
  unfolding keys map_values
  keys-map_values f [] = refl
  keys-map_values f ((j, v) ∷ d) = ap (λ ks. j ∷ ks) (keys-map_values f d)
