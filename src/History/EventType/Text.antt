-- ===== src/History/EventType/Text.antt =====
-- The text form of event types.
use Prim.Native.Char.{code}
use Prim.Native.String.{String, ◌++◌}
use Prim.Native.String.append
use text.Mathlib.TextEquality.{eq_iff}
use skald.Prelude.{
  ℕ, ◌≡◌, refl, sym, ap, ◌∙◌, Bool, true, false, not, none, some, List, [], ◌∷◌, inl, inr,
  string_eq, nat_eq, ◌==◌, ◌&&◌, ◌↔◌, if◌then◌else◌, arith, Option-cases, Bool-cases,
}
use skald.Prelude.Int.{ℤ, int_eq, beq_ℤ_iff}
use skald.History.EventType.{
  EventType, number, marshal_text, unmarshal_text, name_in, type_in, event_type_names,
}

-- Whether a constant has this value.
abbrev pub is_named : ℤ → Bool
is_named c = elim (name_in event_type_names c) [ none ↦ false | some n ↦ true ]

-- Each entry's value has the entry's name, and the other way round.
all_entries : List (EventType × String) → Bool
all_entries [] = true
all_entries ((u, n) ∷ rest) =
    elim (name_in event_type_names (number u)) [ none ↦ false | some m ↦ m == n ]
    && elim (type_in event_type_names n) [ none ↦ false | some c ↦ c == number u ]
    && all_entries rest

table-all_entries : all_entries event_type_names ≡ true
unfolding all_entries event_type_names name_in type_in
table-all_entries = refl

name_in-type_in :
    (table : List (EventType × String)) (b : String) (c : ℤ)
    → all_entries table ≡ true
    → type_in table b ≡ some c
    → name_in event_type_names c ≡ some b
unfolding all_entries type_in
name_in-type_in [] b c h e = cc
name_in-type_in ((u, n) ∷ rest) b c h e =
    elim (Option-cases (name_in event_type_names (number u))) [
      | inl f ↦ absurd (ground (arith, f))
      | inr (m, f) ↦ ground (arith, f, eq_iff n b, eq_iff m n, name_in-type_in rest b c)
    ]

type_in-name_in :
    (table : List (EventType × String)) (b : String) (c : ℤ)
    → all_entries table ≡ true
    → name_in table c ≡ some b
    → type_in event_type_names b ≡ some c
unfolding all_entries name_in
type_in-name_in [] b c h e = cc
type_in-name_in ((u, n) ∷ rest) b c h e = elim (Option-cases (type_in event_type_names n)) [
  | inl f ↦ absurd (ground (arith, f))
  | inr (d, f) ↦
      ground (arith, f, beq_ℤ_iff (number u) c, beq_ℤ_iff d (number u), type_in-name_in rest b c)
]

first : String → ℕ
first String.[] = 0
first (String.◌∷◌ c s) = code c

-- No name begins as the text of a value without a name.
none_first : ℕ → List (EventType × String) → Bool
none_first k [] = true
none_first k ((u, n) ∷ rest) = not (first n == k) && none_first k rest

table-none_first : none_first 69 event_type_names ≡ true
unfolding none_first first event_type_names
table-none_first = refl

type_in-first :
    (table : List (EventType × String)) (b : String)
    → none_first (first b) table ≡ true
    → type_in table b ≡ none
unfolding none_first type_in
type_in-first [] b h = refl
type_in-first ((u, n) ∷ rest) b h = elim (Bool-cases (n == b)) [
  | inl e ↦ absurd (ground (arith, ap first ((string_eq.beq_iff n b).0 e)))
  | inr e ↦ ground (arith, e, type_in-first rest b)
]

first-append : (s : String) → first ("EventType(" ++ s) ≡ 69
unfolding first
first-append s = ap first (append.cons "E" "ventType(" s)

unmarshal_text-some :
    (b : String) (c : ℤ) → unmarshal_text b ≡ some c → name_in event_type_names c ≡ some b
unfolding unmarshal_text
unmarshal_text-some b c e = name_in-type_in event_type_names b c table-all_entries e

unmarshal_text-named :
    (b : String) (c : ℤ) → name_in event_type_names c ≡ some b → unmarshal_text b ≡ some c
unfolding unmarshal_text
unmarshal_text-named b c e = type_in-name_in event_type_names b c table-all_entries e

unmarshal_text-first : (b : String) → first b ≡ 69 → unmarshal_text b ≡ none
unfolding unmarshal_text
unmarshal_text-first b e =
    type_in-first event_type_names b (ap (λ k. none_first k event_type_names) e ∙ table-none_first)

marshal_text-some :
    (decimal : ℤ → String) (c : ℤ) (n : String)
    → name_in event_type_names c ≡ some n
    → marshal_text decimal c ≡ n
unfolding marshal_text
marshal_text-some decimal c n e = ground (arith, e)

marshal_text-none :
    (decimal : ℤ → String) (c : ℤ)
    → name_in event_type_names c ≡ none
    → marshal_text decimal c ≡ "EventType(" ++ (decimal c ++ ")")
unfolding marshal_text
marshal_text-none decimal c e = ground (arith, e)

unmarshal-marshal :
    (decimal : ℤ → String) (c : ℤ)
    → unmarshal_text (marshal_text decimal c) ≡ (if is_named c then some c else none)
unmarshal-marshal decimal c = elim (Option-cases (name_in event_type_names c)) [
  | inl e ↦ rw (marshal_text-none decimal c e) (
      unmarshal_text-first ("EventType(" ++ (decimal c ++ ")")) (first-append (decimal c ++ ")"))
      ∙ ground (arith, e))
  | inr (n, e) ↦
      rw (marshal_text-some decimal c n e) (unmarshal_text-named n c e ∙ ground (arith, e))
]

pub unmarshal_text_iff :
    (decimal : ℤ → String) (b : String) (c : ℤ)
    → ((unmarshal_text b ≡ some c) ↔ ((is_named c ≡ true) × (b ≡ marshal_text decimal c)))
      × (unmarshal_text (marshal_text decimal c) ≡ (if is_named c then some c else none))
unmarshal_text_iff decimal b c = (
  (
    λ e.
        let f = unmarshal_text-some b c e in
        (ground (arith, f), sym (marshal_text-some decimal c b f)),
    λ h. ap unmarshal_text h.1 ∙ unmarshal-marshal decimal c ∙ rw (h.0) refl,
  ),
  unmarshal-marshal decimal c,
)
