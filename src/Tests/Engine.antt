-- ===== src/Tests/Engine.antt =====
-- A database engine for the tests, on lists.
use mathlib.Core.List.{Perm}
use mathlib.Core.List.Perm
use Prim.Native.Nat.{◌/◌}
use hub_meta_conversion_serv.Base.{
  ℕ, ◌+◌, ◌*◌, ◌^◌, ◌==◌, List, Bool, true, false, ◌≡◌, refl, All, All-map, IsSorted, Bool-cases,
  inl, inr, refl, not, ◌&&◌, none, some, [], ◌∷◌, ◌++◌, if◌then◌else◌, find, any, filter, update,
}
use hub_meta_conversion_serv.Meta.Schemas.{Decimal}
use hub_meta_conversion_serv.Env.{Sql}

module _ {A : Type 0} (before : A → A → Bool) where
  abbrev pub insert_by : A → List A → List A
  insert_by x [] = x ∷ []
  insert_by x (y ∷ l) = let rest = insert_by x l in if before x y then x ∷ y ∷ l else y ∷ rest

  abbrev pub sort_by : List A → List A
  sort_by [] = []
  sort_by (x ∷ l) = insert_by x (sort_by l)

  insert_by-perm : (x : A) (l : List A) → Perm (insert_by x l) (x ∷ l)
  insert_by-perm x [] = Perm.refl (x ∷ [])
  insert_by-perm x (y ∷ l) = elim (Bool-cases (before x y)) [
    | inl e ↦ rw e (Perm.refl (x ∷ y ∷ l))
    | inr e ↦ rw e (Perm.trans (Perm.cons y (insert_by-perm x l)) (Perm.swap x y l))
  ]

  pub sort_by-perm : (l : List A) → Perm (sort_by l) l
  sort_by-perm [] = Perm.refl []
  sort_by-perm (x ∷ l) = Perm.trans (insert_by-perm x (sort_by l)) (Perm.cons x (sort_by-perm l))

  All-insert_by : (Q : A → Type 0) (x : A) (l : List A) → Q x → All Q l → All Q (insert_by x l)
  All-insert_by Q x [] q h = (q, tt)
  All-insert_by Q x (y ∷ l) q h = elim (Bool-cases (before x y)) [
    | inl e ↦ rw e (q, h)
    | inr e ↦ rw e (h.0, All-insert_by Q x l q h.1)
  ]

  module _ (total : (x y : A) → before x y ≡ false → before y x ≡ true)
      (through : (x y z : A) → before x y ≡ true → before y z ≡ true → before x z ≡ true) where
    insert_by-IsSorted : (x : A) (l : List A) → IsSorted before l → IsSorted before (insert_by x l)
    insert_by-IsSorted x [] h = (tt, tt)
    insert_by-IsSorted x (y ∷ l) h = elim (Bool-cases (before x y)) [
      | inl e ↦ rw e ((e, All-map (λ z k. through x y z e k) l h.0), h)
      | inr e ↦
          rw e (
            All-insert_by (λ z. before y z ≡ true) x l (total x y e) h.0,
            insert_by-IsSorted x l h.1,
          )
    ]

    pub sort_by-IsSorted : (l : List A) → IsSorted before (sort_by l)
    sort_by-IsSorted [] = tt
    sort_by-IsSorted (x ∷ l) = insert_by-IsSorted x (sort_by l) (sort_by-IsSorted l)

-- The number with that many places that is nearest, and of two the one further from zero.
abbrev pub nearest : ℕ → Decimal → Decimal
nearest scale d =
    let one = 10 ^ d.places in
    let n = (d.coefficient * 10 ^ d.zeros * 10 ^ scale + one / 2) / one in
    record { negative = d.negative && not (n == 0); coefficient = n; places = scale; zeros = 0 }

abbrev decimal : ℕ → ℕ → Decimal
decimal coefficient places = record {
  negative = false;
  coefficient = coefficient;
  places = places;
  zeros = 0;
}

nearest_rounds :
    (nearest 4 (decimal 100_005 5) ≡ decimal 10_001 4)
    × (nearest 4 (decimal 100_004 5) ≡ decimal 10_000 4)
nearest_rounds = (refl, refl)

abbrev pub list_sql : Sql
list_sql = record {
  scalar = λ A p l. find p l;
  scalars = λ A p before l. sort_by before (filter p l);
  insert =
      λ A refers clash r l. if refers && not (any (clash r) l) then some (l ++ r ∷ []) else none;
  numeric = λ precision scale d. nearest scale d;
  change = λ A p f l. update p f l;
  scalar_finds = λ A p l. refl;
  scalars_selects = λ A p before l. sort_by-perm before (filter p l);
  scalars_ordered =
      λ A p before l total through. sort_by-IsSorted before total through (filter p l);
  insert_checks = λ A refers clash r l. refl;
  change_updates = λ A p f l. refl;
}
