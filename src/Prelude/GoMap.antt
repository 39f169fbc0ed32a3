-- ===== src/Prelude/GoMap.antt =====
-- Go's built-in map. The program never depends on the order of iteration over these maps, so the
-- representation is private: other modules use the laws.
use mathlib.Core.Path.{◌≡◌, refl}
use mathlib.Core.Bool.{Bool, true, false}
use mathlib.Core.List.{List, [], ◌∷◌}
use mathlib.Core.Option.{Option, none, some}
use native.Mathlib.Omega.{arith}
use skald.Prelude.Tests.{Eq, ◌==◌, if◌then◌else◌}

pub record GoMap {ℓ κ} (K : Type ℓ) (V : Type κ) : Type (ℓ ⊔ κ) where
  entries : List (K × V)

abbrev pub empty {ℓ κ} : {K : Type ℓ} {V : Type κ} → GoMap K V
empty = record { entries = [] }

abbrev null {ℓ} : {A : Type ℓ} → List A → Bool
null [] = true
null (x ∷ xs) = false

-- len(m) == 0
abbrev pub is_empty {ℓ κ} : {K : Type ℓ} {V : Type κ} → GoMap K V → Bool
is_empty m = null m.entries

pub beq_refl {ℓ} : {K : Type ℓ} ⦃e : Eq K⦄ (k : K) → (k == k) ≡ true
beq_refl ⦃e⦄ k = (e.beq_iff k k).1 refl

module _ {ℓ κ} {K : Type ℓ} {V : Type κ} ⦃e : Eq K⦄ where
  lookup : K → List (K × V) → Option V
  lookup k [] = none
  lookup k ((j, v) ∷ m) = if j == k then some v else lookup k m

  without : K → List (K × V) → List (K × V)
  without k [] = []
  without k ((j, v) ∷ m) = let rest = without k m in if j == k then rest else (j, v) ∷ rest

  -- v, ok := m[k]
  unfoldable pub get : GoMap K V → K → Option V
  unfolding lookup
  get m k = lookup k m.entries

  -- m[k] = v
  unfoldable pub put : GoMap K V → K → V → GoMap K V
  unfolding without
  put m k v = record { entries = (k, v) ∷ without k m.entries }

  -- delete(m, k)
  unfoldable pub delete : GoMap K V → K → GoMap K V
  unfolding without
  delete m k = record { entries = without k m.entries }

  map_entries : (V → V) → List (K × V) → List (K × V)
  map_entries f [] = []
  map_entries f ((j, v) ∷ m) = (j, f v) ∷ map_entries f m

  -- for k, v := range m { m[k] = f(v) }
  unfoldable pub map_values : (V → V) → GoMap K V → GoMap K V
  unfolding map_entries
  map_values f m = record { entries = map_entries f m.entries }

  lookup-map_entries :
      (f : V → V) (k : K) (m : List (K × V))
      → lookup k (map_entries f m) ≡ elim (lookup k m) [ none ↦ none | some v ↦ some (f v) ]
  unfolding lookup map_entries
  lookup-map_entries f k [] = refl
  lookup-map_entries f k ((j, v) ∷ m) = ground (arith, lookup-map_entries f k m)

  pub get-map_values :
      (f : V → V) (m : GoMap K V) (k : K)
      → get (map_values f m) k ≡ elim (get m k) [ none ↦ none | some v ↦ some (f v) ]
  unfolding get map_values
  get-map_values f m k = lookup-map_entries f k m.entries

  lookup-without :
      (k j : K) (m : List (K × V)) → lookup j (without k m) ≡ (if k == j then none else lookup j m)
  unfolding lookup without
  lookup-without k j [] = ground arith
  lookup-without k j ((i, v) ∷ m) =
      ground (arith, e.beq_iff k j, e.beq_iff i k, e.beq_iff i j, lookup-without k j m)

  pub get-put :
      (m : GoMap K V) (k j : K) (v : V) → get (put m k v) j ≡ (if k == j then some v else get m j)
  unfolding get put lookup
  get-put m k j v = ground (arith, lookup-without k j m.entries)

  pub get-delete :
      (m : GoMap K V) (k j : K) → get (delete m k) j ≡ (if k == j then none else get m j)
  unfolding get delete
  get-delete m k j = lookup-without k j m.entries

  pub get-empty : (k : K) → get (empty {V = V}) k ≡ none
  unfolding get lookup
  get-empty k = refl

  pub get-put_self : (m : GoMap K V) (k : K) (v : V) → get (put m k v) k ≡ some v
  get-put_self m k v = rw (get-put m k k v, beq_refl k)

  pub get-delete_self : (m : GoMap K V) (k : K) → get (delete m k) k ≡ none
  get-delete_self m k = rw (get-delete m k k, beq_refl k)

  remove_entries {μ} : {A : Type μ} → List (K × A) → GoMap K V → GoMap K V
  remove_entries [] m = m
  remove_entries ((k, a) ∷ s) m = remove_entries s (delete m k)

  -- for k := range s { delete(m, k) }
  unfoldable pub delete_all {μ} : {A : Type μ} → GoMap K A → GoMap K V → GoMap K V
  unfolding remove_entries
  delete_all s m = remove_entries s.entries m

  -- A map with an entry is not empty.
  pub is_empty-get : (m : GoMap K V) (k : K) → is_empty m ≡ true → get m k ≡ none
  unfolding get lookup
  is_empty-get m k h = go m.entries h
    where
      go : (l : List (K × V)) → null l ≡ true → lookup k l ≡ none
      go [] p = refl
      go (x ∷ l) p = cc

module _ {ℓ κ μ} {K : Type ℓ} {V : Type κ} {A : Type μ} ⦃e : Eq K⦄ where
  get-remove_entries :
      (s : List (K × A)) (m : GoMap K V) (k : K)
      → get (remove_entries s m) k ≡ elim (lookup k s) [ none ↦ get m k | some a ↦ none ]
  unfolding remove_entries lookup
  get-remove_entries [] m k = refl
  get-remove_entries ((j, a) ∷ s) m k =
      ground (arith, get-delete m j k, get-remove_entries s (delete m j) k)

  pub get-delete_all :
      (s : GoMap K A) (m : GoMap K V) (k : K)
      → get (delete_all s m) k ≡ elim (get s k) [ none ↦ get m k | some a ↦ none ]
  unfolding delete_all get
  get-delete_all s m k = get-remove_entries s.entries m k

pub ruleset map_laws = (get-put, get-delete, get-empty)
