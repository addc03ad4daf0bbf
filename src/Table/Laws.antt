-- ===== src/Table/Laws.antt =====
-- The laws of the table operations.
use ssh_mcp_pro.Base.{
  true, false, [], ◌∷◌, none, some, ◌≡◌, refl, Eq, ◌==◌, if◌then◌else◌, ◌+◌, ◌≤◌, arith, All, inl,
  inr, Bool-cases, Bool, not, filter, Option,
}
use ssh_mcp_pro.Table.Defs.{Table, size, get, set, delete, has, IsMap}

module _ {ℓ κ} {K : Type ℓ} {V : Type κ} ⦃e : Eq K⦄ where
  pub get-set :
      (k j : K) (v : V) (m : Table K V) → get j (set k v m) ≡ (if k == j then some v else get j m)
  unfolding get set
  get-set k j v [] = refl
  get-set k j v ((i, w) ∷ m) =
      ground (arith, e.equal_iff k j, e.equal_iff i k, e.equal_iff i j, get-set k j v m)

  pub get-delete :
      (k j : K) (m : Table K V) → get j (delete k m) ≡ (if k == j then none else get j m)
  unfolding get delete
  get-delete k j [] = ground arith
  get-delete k j ((i, w) ∷ m) =
      ground (arith, e.equal_iff k j, e.equal_iff i k, e.equal_iff i j, get-delete k j m)

  pub size-set :
      (k : K) (v : V) (m : Table K V) → size (set k v m) ≡ (if has k m then size m else size m + 1)
  unfolding get set has
  size-set k v [] = refl
  size-set k v ((i, w) ∷ m) = ground (arith, size-set k v m)

  pub size-delete-le : (k : K) (m : Table K V) → size (delete k m) ≤ size m
  unfolding delete
  size-delete-le k [] = omega arith
  size-delete-le k ((i, w) ∷ m) = ground (arith, size-delete-le k m)

  pub delete_absent : (k : K) (m : Table K V) → get k m ≡ none → delete k m ≡ m
  unfolding get delete
  delete_absent k [] h = refl
  delete_absent k ((i, w) ∷ m) h = ground (arith, delete_absent k m)

  pub size-delete :
      (k : K) (v : V) (m : Table K V) → IsMap m → get k m ≡ some v → size (delete k m) + 1 ≡ size m
  unfolding get delete
  size-delete k v [] u h = ground arith
  size-delete k v ((i, w) ∷ m) u h =
      ground (arith, e.equal_iff i k, delete_absent k m, size-delete k v m u.1)

  pub set-IsMap : (k : K) (v : V) (m : Table K V) → IsMap m → IsMap (set k v m)
  unfolding get set
  set-IsMap k v [] u = (refl, tt)
  set-IsMap k v ((i, w) ∷ m) u =
      ground (arith, e.equal_iff i k, e.equal_iff k i, get-set k i v m, set-IsMap k v m u.1)

  pub delete-IsMap : (k : K) (m : Table K V) → IsMap m → IsMap (delete k m)
  unfolding get delete
  delete-IsMap k [] u = tt
  delete-IsMap k ((i, w) ∷ m) u =
      ground (arith, e.equal_iff i k, e.equal_iff k i, get-delete k i m, delete-IsMap k m u.1)

  pub get-All {μ} :
      (P : K × V → Type μ) (k : K) (v : V) (m : Table K V) → All P m → get k m ≡ some v → P (k, v)
  unfolding get
  get-All P k v [] a h = absurd (ground arith)
  get-All P k v ((i, w) ∷ m) (p, a) h = elim (Bool-cases (i == k)) [
    | inl same ↦ ground (arith, e.equal_iff i k)
    | inr other ↦ get-All P k v m a (ground arith)
  ]

  pub set-All {μ} :
      (P : K × V → Type μ) (k : K) (v : V) (m : Table K V) → All P m → P (k, v) → All P (set k v m)
  unfolding set
  set-All P k v [] a p = (p, tt)
  set-All P k v ((i, w) ∷ m) a p = ground (arith, set-All P k v m a.1 p)

  pub delete-All {μ} : (P : K × V → Type μ) (k : K) (m : Table K V) → All P m → All P (delete k m)
  unfolding delete
  delete-All P k [] a = tt
  delete-All P k ((i, w) ∷ m) a = ground (arith, delete-All P k m a.1)

  pub has-set :
      (k j : K) (v : V) (m : Table K V) → has j (set k v m) ≡ (if k == j then true else has j m)
  unfolding has
  has-set k j v m = ground (arith, get-set k j v m)

  pub has-delete :
      (k j : K) (m : Table K V) → has j (delete k m) ≡ (if k == j then false else has j m)
  unfolding has
  has-delete k j m = ground (arith, get-delete k j m)

  -- A key that is there has a value.
  pub has→get : (k : K) (m : Table K V) → has k m ≡ true → (v : V) × (get k m ≡ some v)
  unfolding has
  has→get k m h = ground arith

  -- What a filter leaves of an entry.
  abbrev pub kept_if : (K × V → Bool) → K → Option V → Option V
  kept_if p k none = none
  kept_if p k (some v) = if p (k, v) then some v else none

  pub get-filter :
      (p : K × V → Bool) (k : K) (m : Table K V)
      → IsMap m
      → get k (filter p m) ≡ kept_if p k (get k m)
  unfolding get
  get-filter p k [] u = refl
  get-filter p k ((i, w) ∷ m) u = ground (arith, e.equal_iff i k, get-filter p k m u.1)

  pub filter-IsMap : (p : K × V → Bool) (m : Table K V) → IsMap m → IsMap (filter p m)
  filter-IsMap p [] u = tt
  filter-IsMap p ((i, w) ∷ m) u = ground (arith, get-filter p i m u.1, filter-IsMap p m u.1)

  pub get-filter_key :
      (j k : K) (m : Table K V)
      → get k (filter (λ (row : K × V). not (row.0 == j)) m) ≡ (if j == k then none else get k m)
  unfolding get
  get-filter_key j k [] = ground arith
  get-filter_key j k ((i, w) ∷ m) =
      ground (arith, e.equal_iff i k, e.equal_iff i j, e.equal_iff j k, get-filter_key j k m)

  pub has-get : (k : K) (v : V) (m : Table K V) → get k m ≡ some v → has k m ≡ true
  unfolding has
  has-get k v m h = ground (arith, h)
