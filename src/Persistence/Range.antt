-- ===== src/Persistence/Range.antt =====
-- The range of events that ReadHistory selects.
use skald.Prelude.{
  ℕ, zero, suc, ◌+◌, ◌-◌, ◌≤◌, ◌≡◌, refl, ap, sym, none, List, [], ◌∷◌, length, get_elem?, take,
  drop, ltb, arith, if◌then◌else◌, ◌||◌, leb, ◌∙◌,
}
use skald.Prelude.Int.{pos}
use skald.Persistence.Reads.{select_range, from_one, up_to}

suc_plus : (n i : ℕ) → suc n + i ≡ suc (n + i)
suc_plus n i = omega arith

from_one-pos : (from : ℕ) → 1 ≤ from → from_one (pos from) ≡ from
from_one-pos from h = ground arith

up_to-pos : (last to : ℕ) → up_to last (pos to) ≡ (if leb to 0 || ltb last to then last else to)
up_to-pos last to = ground arith

module _ {B : Type 0} where
  get_elem?-take :
      (n : ℕ) (l : List B) (i : ℕ)
      → get_elem? (take n l) i ≡ (if ltb i n then get_elem? l i else none)
  get_elem?-take zero l i = ground arith
  get_elem?-take (suc n) [] i = ground arith
  get_elem?-take (suc n) (x ∷ l) zero = ground arith
  get_elem?-take (suc n) (x ∷ l) (suc i) = ground (arith, get_elem?-take n l i)

  get_elem?-drop : (n : ℕ) (l : List B) (i : ℕ) → get_elem? (drop n l) i ≡ get_elem? l (n + i)
  get_elem?-drop zero l i = ap (get_elem? l) (omega arith)
  get_elem?-drop (suc n) [] i = refl
  get_elem?-drop (suc n) (x ∷ l) i =
      get_elem?-drop n l i ∙ ap (get_elem? (x ∷ l)) (sym (suc_plus n i))

  between :
      (l : List B) (from to i : ℕ)
      → 1 ≤ from
      → get_elem? (drop (from - 1) (take to l)) i
        ≡ (if leb (from + i) to then get_elem? l (from + i - 1) else none)
  between l from to i h =
      get_elem?-drop (from - 1) (take to l) i
      ∙ get_elem?-take to l (from - 1 + i)
      ∙ rw (shift) (ground (arith))
    where
      shift : from - 1 + i ≡ from + i - 1
      shift = omega arith

  abbrev cut : List B → ℕ → ℕ → List B
  cut l from to = if ltb (length l) from || ltb to from then [] else drop (from - 1) (take to l)

  get_elem?-past : (l : List B) (i : ℕ) → length l ≤ i → get_elem? l i ≡ none
  get_elem?-past [] i h = refl
  get_elem?-past (x ∷ l) zero h = absurd (omega arith)
  get_elem?-past (x ∷ l) (suc i) h = get_elem?-past l i (omega arith)

  cut_lem :
      (l : List B) (from to i : ℕ)
      → 1 ≤ from
      → get_elem? (cut l from to) i
        ≡ (if leb (from + i) to then get_elem? l (from + i - 1) else none)
  cut_lem l from to i h = ground (arith, between l from to i h, get_elem?-past l (from + i - 1))

  -- selectRange for a range that starts at event 1 or later, and ends at event `to` or, where `to`
  -- is 0 or past the end, at the last event: the i-th element is event from + i, if that is in the
  -- range, and there is no other.
  pub select_range_lem :
      (l : List B) (from to i : ℕ)
      → 1 ≤ from
      → get_elem? (select_range l (pos from) (pos to)) i ≡ (
          if leb (from + i) (if leb to 0 || ltb (length l) to then length l else to)
          then get_elem? l (from + i - 1)
          else none)
  unfolding select_range
  select_range_lem l from to i h =
      ap (λ f. get_elem? (cut l f (up_to (length l) (pos to))) i) (from_one-pos from h)
      ∙ cut_lem l from (up_to (length l) (pos to)) i h
      ∙ ap (λ u. if leb (from + i) u then get_elem? l (from + i - 1) else none)
          (up_to-pos (length l) to)
