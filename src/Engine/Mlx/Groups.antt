-- ===== src/Engine/Mlx/Groups.antt =====
-- The groups of a batch by temperature.
use fleet_lm.Base.{
  ℕ, suc, ◌+◌, ◌<◌, Bool, true, false, ◌||◌, some, ◌≡◌, ◌⊎◌, refl, ◌∙◌, inl, inr, ap, List, [], ◌∷◌,
  ◌++◌, arith, ◌==◌, Bool-cases, Option-cases, All, contains, contains-append, length, Dict,
  All-append, ◌≤◌, lookup, insert, nth,
}
use fleet_lm.Engine.{BatchItem}
use fleet_lm.Engine.Mlx.{add_index, group_items}

-- A predicate on the entries of a dict.
module _ {ℓ κ} {V : Type ℓ} (P : ℕ → V → Type κ) where
  abbrev pub AllEntries : Dict V → Type κ
  AllEntries [] = Unit
  AllEntries ((k, v) ∷ d) = P k v × AllEntries d

  insert-AllEntries :
      (k : ℕ) (v : V) (d : Dict V) → P k v → AllEntries d → AllEntries (insert k v d)
  unfolding insert
  insert-AllEntries k v [] p h = (p, tt)
  insert-AllEntries k v ((j, w) ∷ d) p h = elim (Bool-cases (k == j)) [
    | inl e ↦ let same : k ≡ j = ground arith in rw (e, insert) ((rw (← same) p), h.1)
    | inr e ↦ rw (e, insert) (h.0, insert-AllEntries k v d p h.1)
  ]

  lookup-AllEntries : (k : ℕ) (v : V) (d : Dict V) → AllEntries d → lookup k d ≡ some v → P k v
  unfolding lookup
  lookup-AllEntries k v [] h q = cc
  lookup-AllEntries k v ((j, w) ∷ d) h q = elim (Bool-cases (k == j)) [
    | inl e ↦
        let same : k ≡ j = ground arith in let kept : w ≡ v = ground arith in rw (same, ← kept) h.0
    | inr e ↦ lookup-AllEntries k v d h.1 (ground arith)
  ]

-- Whether an index stands in one of the groups.
unfoldable pub grouped : ℕ → Dict (List ℕ) → Bool
grouped j [] = false
grouped j ((t, idxs) ∷ groups) = contains j idxs || grouped j groups

grouped-insert_new :
    (j t : ℕ) (idxs : List ℕ) (groups : Dict (List ℕ))
    → contains j idxs ≡ true
    → grouped j (insert t idxs groups) ≡ true
unfolding grouped insert
grouped-insert_new j t idxs [] c = ground arith
grouped-insert_new j t idxs ((u, other) ∷ groups) c =
    ground (arith, grouped-insert_new j t idxs groups c)

grouped-insert :
    (j t : ℕ) (idxs : List ℕ) (groups : Dict (List ℕ))
    → ((old : List ℕ) → lookup t groups ≡ some old → contains j old ≡ true → contains j idxs ≡ true)
    → grouped j groups ≡ true
    → grouped j (insert t idxs groups) ≡ true
unfolding grouped insert lookup
grouped-insert j t idxs [] h g = cc
grouped-insert j t idxs ((u, other) ∷ groups) h g = elim (Bool-cases (t == u)) [
  | inl e ↦ ground (arith, h other)
  | inr e ↦ elim (Bool-cases (contains j other)) [
    | inl c ↦ rw (e, insert, c, grouped) refl
    | inr c ↦
        rw (e, insert, c)
          (grouped-insert j t idxs groups (λ old q. h old (ground arith)) (ground arith))
  ]
]

-- The group that an index joins holds it and what it held before.
grouped-extended :
    (j t i : ℕ) (before after : List ℕ) (groups : Dict (List ℕ))
    → ((old : List ℕ)
        → lookup t groups ≡ some old
        → contains j old ≡ true
        → contains j before ≡ true)
    → contains j after ≡ (contains j before || j == i)
    → (j == i || grouped j groups) ≡ true
    → grouped j (insert t after groups) ≡ true
grouped-extended j t i before after groups h c g = elim (Bool-cases (j == i)) [
  | inl e ↦ grouped-insert_new j t after groups (ground arith)
  | inr e ↦
      grouped-insert j t after groups (λ old q o. let kept = h old q o in ground arith)
        (ground arith)
]

grouped-add_index :
    (j t i : ℕ) (groups : Dict (List ℕ))
    → (j == i || grouped j groups) ≡ true
    → grouped j (add_index t i groups) ≡ true
unfolding add_index contains
grouped-add_index j t i groups g = elim (Option-cases (lookup t groups)) [
  | inl e ↦
      rw (e, add_index) (grouped-extended j t i [] (i ∷ []) groups (λ old q o. cc) (ground arith) g)
  | inr (idxs, e) ↦
      rw (e, add_index)
        (grouped-extended j t i idxs (idxs ++ i ∷ []) groups (λ old q o. ground arith)
          (contains-append j idxs (i ∷ []) ∙ ground arith) g)
]

module _ (items : List BatchItem) where
  -- An item that may ride in the group of a temperature.
  abbrev pub Fits : ℕ → ℕ → Type 0
  Fits t i = (item : BatchItem) × (nth i items ≡ some item) × (item.temperature ≡ t)

  abbrev pub FitAll : ℕ → List ℕ → Type 0
  FitAll t idxs = All (Fits t) idxs

  abbrev pub AllFit : Dict (List ℕ) → Type 0
  AllFit = AllEntries FitAll

  add_index-AllFit :
      (t i : ℕ) (groups : Dict (List ℕ)) → Fits t i → AllFit groups → AllFit (add_index t i groups)
  unfolding add_index
  add_index-AllFit t i groups f h = elim (Option-cases (lookup t groups)) [
    | inl e ↦ rw (e, add_index) (insert-AllEntries FitAll t (i ∷ []) groups (f, tt) h)
    | inr (idxs, e) ↦
        rw (e, add_index)
          (insert-AllEntries FitAll t (idxs ++ i ∷ []) groups
            (All-append (Fits t) idxs (i ∷ []) (lookup-AllEntries FitAll t idxs groups h e) (f, tt))
            h)
  ]

  -- Each index goes to one of the groups, that of its own temperature.
  pub group_items-AllFit :
      (i : ℕ) (rest : List BatchItem) (groups : Dict (List ℕ))
      → ((j : ℕ) → nth (i + j) items ≡ nth j rest)
      → AllFit groups
      → AllFit (group_items i rest groups)
  unfolding group_items nth
  group_items-AllFit i [] groups same h = h
  group_items-AllFit i (item ∷ rest) groups same h =
      group_items-AllFit (suc i) rest _ (λ j. ap (λ k. nth k items) (omega arith) ∙ same (suc j))
        (add_index-AllFit item.temperature i groups
          (item, ap (λ k. nth k items) (omega arith) ∙ same 0, refl) h)

pub grouped-group_items :
    (j i : ℕ) (rest : List BatchItem) (groups : Dict (List ℕ))
    → (i ≤ j) × (j < i + length rest) ⊎ (grouped j groups ≡ true)
    → grouped j (group_items i rest groups) ≡ true
unfolding group_items
grouped-group_items j i [] groups (inl (low, high)) = absurd (omega arith)
grouped-group_items j i [] groups (inr g) = g
grouped-group_items j i (item ∷ rest) groups h =
    grouped-group_items j (suc i) rest _ (elim (Bool-cases (j == i)) [
      | inl e ↦ inr (grouped-add_index j item.temperature i groups (ground arith))
      | inr e ↦ elim h [
        | inl (low, high) ↦ inl (ground arith, omega arith)
        | inr g ↦ inr (grouped-add_index j item.temperature i groups (ground arith))
      ]
    ])
