-- ===== src/Prelude/Lists.antt =====
-- Lists measured and indexed by native numbers, and predicates on all their members.
use Prim.Native.Nat.{ℕ, zero, suc, ◌+◌}
use mathlib.Core.Path.{◌≡◌, refl}
use mathlib.Core.Logic.{◌⊎◌, inl, inr}
use mathlib.Core.List.{List, [], ◌∷◌, ◌++◌}
use mathlib.Core.Option.{Option, none, some}
use native.Mathlib.Omega.{arith}
use skald.Prelude.Tests.{◌==◌, nat_eq, if◌then◌else◌, Bool-cases}
use mathlib.Core.Bool.{Bool, false, ◌||◌}

module _ {ℓ} {A : Type ℓ} where
  abbrev pub length : List A → ℕ
  length [] = 0
  length (x ∷ xs) = suc (length xs)

  abbrev pub get_elem? : List A → ℕ → Option A
  get_elem? [] i = none
  get_elem? (x ∷ xs) zero = some x
  get_elem? (x ∷ xs) (suc i) = get_elem? xs i

  pub length-append : (xs ys : List A) → length (xs ++ ys) ≡ length xs + length ys
  length-append [] ys = omega arith
  length-append (x ∷ xs) ys = omega (arith, length-append xs ys)

  pub Option-cases : (o : Option A) → (o ≡ none) ⊎ ((a : A) × (o ≡ some a))
  Option-cases none = inl refl
  Option-cases (some a) = inr (a, refl)

abbrev pub All {ℓ κ} : {A : Type ℓ} → (A → Type κ) → List A → Type κ
All P [] = Unit
All P (x ∷ xs) = P x × All P xs

pub All-append {ℓ κ} :
    {A : Type ℓ} (P : A → Type κ) (xs ys : List A) → All P xs → All P ys → All P (xs ++ ys)
All-append P [] ys hx hy = hy
All-append P (x ∷ xs) ys hx hy = (hx.0, All-append P xs ys hx.1 hy)

-- l[i] = a
module _ {ℓ} {A : Type ℓ} where
  abbrev pub set_elem : List A → ℕ → A → List A
  set_elem [] i a = []
  set_elem (x ∷ xs) zero a = a ∷ xs
  set_elem (x ∷ xs) (suc i) a = x ∷ set_elem xs i a

  pub get_elem?-set_elem :
      (l : List A) (i j : ℕ) {old : A} (a : A)
      → get_elem? l i ≡ some old
      → get_elem? (set_elem l i a) j ≡ (if i == j then some a else get_elem? l j)
  get_elem?-set_elem [] i j a h = cc
  get_elem?-set_elem (x ∷ xs) zero zero a h = ground arith
  get_elem?-set_elem (x ∷ xs) zero (suc j) a h = ground arith
  get_elem?-set_elem (x ∷ xs) (suc i) zero a h = ground arith
  get_elem?-set_elem (x ∷ xs) (suc i) (suc j) a h = ground (arith, get_elem?-set_elem xs i j a h)

  pub get_elem?-append_one :
      (l : List A) (j : ℕ) (a : A)
      → get_elem? (l ++ a ∷ []) j ≡ (if length l == j then some a else get_elem? l j)
  get_elem?-append_one [] zero a = ground arith
  get_elem?-append_one [] (suc j) a = ground arith
  get_elem?-append_one (x ∷ xs) zero a = ground arith
  get_elem?-append_one (x ∷ xs) (suc j) a = ground (arith, get_elem?-append_one xs j a)

  pub length-set_elem : (l : List A) (i : ℕ) (a : A) → length (set_elem l i a) ≡ length l
  length-set_elem [] i a = refl
  length-set_elem (x ∷ xs) zero a = refl
  length-set_elem (x ∷ xs) (suc i) a = omega (arith, length-set_elem xs i a)

  -- The sum of `f` over a list.
  abbrev pub total : (A → ℕ) → List A → ℕ
  total f [] = 0
  total f (x ∷ xs) = f x + total f xs

  pub total-append : (f : A → ℕ) (xs ys : List A) → total f (xs ++ ys) ≡ total f xs + total f ys
  total-append f [] ys = omega arith
  total-append f (x ∷ xs) ys = omega (arith, total-append f xs ys)

  pub total-set_elem :
      (f : A → ℕ) (l : List A) (i : ℕ) {old : A} (a : A)
      → get_elem? l i ≡ some old
      → total f (set_elem l i a) + f old ≡ total f l + f a
  total-set_elem f [] i a h = cc
  total-set_elem f (x ∷ xs) zero a h = ground arith
  total-set_elem f (x ∷ xs) (suc i) a h = ground (arith, total-set_elem f xs i a h)

abbrev pub among : ℕ → List ℕ → Bool
among n [] = false
among n (m ∷ ms) = m == n || among n ms

-- No number stands in the list twice.
abbrev pub IsDistinct : List ℕ → Type 0
IsDistinct [] = Unit
IsDistinct (n ∷ ns) = (among n ns ≡ false) × IsDistinct ns

-- The list without the first `n`.
abbrev pub remove_one : ℕ → List ℕ → List ℕ
remove_one n [] = []
remove_one n (m ∷ ms) = let rest = remove_one n ms in if m == n then ms else m ∷ rest

pub among-append_one : (n m : ℕ) (ns : List ℕ) → among n (ns ++ m ∷ []) ≡ (among n ns || m == n)
among-append_one n m [] = ground arith
among-append_one n m (k ∷ ns) = ground (arith, among-append_one n m ns)

pub IsDistinct-append_one :
    (m : ℕ) (ns : List ℕ) → IsDistinct ns → among m ns ≡ false → IsDistinct (ns ++ m ∷ [])
IsDistinct-append_one m [] d h = (refl, tt)
IsDistinct-append_one m (k ∷ ns) d h =
    (ground (arith, d.0, among-append_one k m ns), IsDistinct-append_one m ns d.1 (ground arith))

pub among-remove_one :
    (n k : ℕ) (ns : List ℕ)
    → IsDistinct ns
    → among k (remove_one n ns) ≡ (if n == k then false else among k ns)
among-remove_one n k [] d = ground arith
among-remove_one n k (m ∷ ns) d = ground (arith, d.0, among-remove_one n k ns d.1)

pub IsDistinct-remove_one : (n : ℕ) (ns : List ℕ) → IsDistinct ns → IsDistinct (remove_one n ns)
IsDistinct-remove_one n [] d = tt
IsDistinct-remove_one n (m ∷ ns) d = elim (Bool-cases (m == n)) [
  | inl e ↦ rw e d.1
  | inr e ↦ rw e (ground (arith, d.0, among-remove_one n m ns d.1), IsDistinct-remove_one n ns d.1)
]

module _ {ℓ} {A : Type ℓ} where
  abbrev pub take : ℕ → List A → List A
  take zero l = []
  take (suc n) [] = []
  take (suc n) (x ∷ l) = x ∷ take n l

  abbrev pub drop : ℕ → List A → List A
  drop zero l = l
  drop (suc n) [] = []
  drop (suc n) (x ∷ l) = drop n l
