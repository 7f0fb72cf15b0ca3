-- ===== src/Schemas/Accepted.antt =====
-- Which bodies of a conversion tag are accepted (app/schemas/conversion_tag.py).
use Prim.Native.String.{count}
use mathlib.Core.List.{Memᴰ}
use mathlib.Core.List.Memᴰ.{head, tail}
use hub_meta_conversion_serv.Base.{
  ℕ, ◌≤◌, ◌≡◌, ◌↔◌, refl, arith, Bool, true, false, ◌&&◌, leb, str_eq, eq_iff, String, Option, none,
  some, List, [], ◌∷◌, any, Bool-cases, inl, inr,
}
use hub_meta_conversion_serv.Meta.Schemas.{Decimal, Rule}
use hub_meta_conversion_serv.Schemas.{
  ConversionTagCreate, length_within, if_present, event_types, categories, operators, rule_accepted,
  decimal_nonneg, is_none, same, value_requires_currency, tag_accepted,
}

-- The constraints on the fields and on the whole body, as predicates.
pub record IsValid (p : ConversionTagCreate) : Type 0 where
  pub name_length : (1 ≤ count p.name) × (count p.name ≤ 255)
  pub event_listed : Memᴰ p.event_type event_types
  pub category_listed : Memᴰ p.category categories
  pub value_nonneg : (d : Decimal) → p.value ≡ some d → d.negative ≡ true → d.coefficient ≡ 0
  pub currency_length : (s : String) → p.currency ≡ some s → count s ≡ 3
  pub rule_named : (r : Rule) → p.rule ≡ some r → (1 ≤ count r.field) × Memᴰ r.operator operators
  pub together : (p.value ≡ none) ↔ (p.currency ≡ none)

listed : (s : String) (l : List String) → any (str_eq s) l ≡ true → Memᴰ s l
listed s [] h = ground arith
listed s (x ∷ l) h = elim (Bool-cases (str_eq s x)) [
  | inl e ↦ head ((eq_iff s x).0 e)
  | inr e ↦ tail (listed s l (ground arith))
]

any_listed : (s : String) (l : List String) → Memᴰ s l → any (str_eq s) l ≡ true
any_listed s [] m = elim m [ ]
any_listed s (x ∷ l) (head e) = ground (arith, eq_iff s x)
any_listed s (x ∷ l) (tail m) = ground (arith, any_listed s l m)

present :
    {A : Type 0} (p : A → Bool) (o : Option A)
    → if_present p o ≡ true
    → (a : A) → o ≡ some a
    → p a ≡ true
present p none h a e = ground arith
present p (some x) h a e = ground arith

if_present-holds :
    {A : Type 0} (p : A → Bool) (o : Option A)
    → ((a : A) → o ≡ some a → p a ≡ true)
    → if_present p o ≡ true
if_present-holds p none h = refl
if_present-holds p (some x) h = h x refl

both_or_neither :
    {A B : Type 0} (o : Option A) (q : Option B)
    → (same (is_none o) (is_none q) ≡ true) ↔ ((o ≡ none) ↔ (q ≡ none))
both_or_neither none none = ground arith
both_or_neither none (some y) = ground arith
both_or_neither (some x) none = ground arith
both_or_neither (some x) (some y) = ground arith

and-true : (a b : Bool) → (a && b) ≡ true → (a ≡ true) × (b ≡ true)
and-true true true h = (refl, refl)
and-true true false h = ground arith
and-true false b h = ground arith

and_intro : (a b : Bool) → a ≡ true → b ≡ true → (a && b) ≡ true
and_intro a b h k = ground arith

within-bounds :
    (low high : ℕ) (s : String)
    → (length_within low high s ≡ true) ↔ ((low ≤ count s) × (count s ≤ high))
within-bounds low high s = ground arith

nonneg_iff : (d : Decimal) → (decimal_nonneg d ≡ true) ↔ (d.negative ≡ true → d.coefficient ≡ 0)
unfolding decimal_nonneg
nonneg_iff d = elim (Bool-cases d.negative) [ inl e ↦ ground arith | inr e ↦ ground arith ]

IsValid-if_accepted : (p : ConversionTagCreate) → tag_accepted p ≡ true → IsValid p
unfolding tag_accepted rule_accepted value_requires_currency
IsValid-if_accepted p h =
    let (name, h1) = and-true _ _ h in
    let (event, h2) = and-true _ _ h1 in
    let (category, h3) = and-true _ _ h2 in
    let (value, h4) = and-true _ _ h3 in
    let (currency, h5) = and-true _ _ h4 in
    let (rule, both) = and-true _ _ h5 in
    record {
      name_length = (within-bounds 1 255 p.name).0 name;
      event_listed = listed p.event_type event_types event;
      category_listed = listed p.category categories category;
      value_nonneg = λ d e. (nonneg_iff d).0 (present decimal_nonneg p.value value d e);
      currency_length = λ s e. three s (present (length_within 3 3) p.currency currency s e);
      rule_named = λ r e. named r (present rule_accepted p.rule rule r e);
      together = (both_or_neither p.value p.currency).0 both;
    }
  where
    three : (s : String) → length_within 3 3 s ≡ true → count s ≡ 3
    three s e = ground arith

    named : (r : Rule) → rule_accepted r ≡ true → (1 ≤ count r.field) × Memᴰ r.operator operators
    named r e =
        let (x, y) = and-true (leb 1 (count r.field)) (any (str_eq r.operator) operators) e in
        (ground arith, listed r.operator operators y)

accepted_if-IsValid : (p : ConversionTagCreate) → IsValid p → tag_accepted p ≡ true
unfolding tag_accepted rule_accepted value_requires_currency
accepted_if-IsValid p v = and_intro _ _ ((within-bounds 1 255 p.name).1 v.name_length) (
    and_intro _ _ (any_listed p.event_type event_types v.event_listed) (
      and_intro _ _ (any_listed p.category categories v.category_listed) (
        and_intro _ _
          (if_present-holds decimal_nonneg p.value (λ d e. (nonneg_iff d).1 (v.value_nonneg d e)))
          (and_intro _ _
            (if_present-holds (length_within 3 3) p.currency
              (λ s e. three s (v.currency_length s e)))
            (and_intro _ _
              (if_present-holds rule_accepted p.rule (λ r e. named r (v.rule_named r e)))
              ((both_or_neither p.value p.currency).1 v.together))))))
  where
    three : (s : String) → count s ≡ 3 → length_within 3 3 s ≡ true
    three s e = ground arith

    named : (r : Rule) → (1 ≤ count r.field) × Memᴰ r.operator operators → rule_accepted r ≡ true
    named r e = and_intro _ _ (ground arith) (any_listed r.operator operators e.1)

-- A conversion tag's body is accepted exactly if its name has 1 to 255 characters, its event type
-- and category are listed ones, a value is not negative, a currency has three characters, a rule
-- has a field and a listed operator, and the value is absent exactly if the currency is.
pub accepted-IsValid : (p : ConversionTagCreate) → (tag_accepted p ≡ true) ↔ IsValid p
accepted-IsValid p = (IsValid-if_accepted p, accepted_if-IsValid p)
