-- ===== src/Base/Selection.antt =====
-- What tests of all or of some rows, and filters, make of lists that grow at their end.
use mathlib.Core.Path.{◌≡◌, refl}
use mathlib.Core.Bool.{Bool, true, false, not, ◌||◌}
use mathlib.Core.List.{List, [], ◌∷◌, ◌++◌}
use native.Mathlib.Omega.{arith}
use hub_meta_conversion_serv.Base.Lists.{any, all, filter}

module _ {ℓ} {A : Type ℓ} where
  pub any-snoc : (p : A → Bool) (l : List A) (x : A) → any p (l ++ x ∷ []) ≡ (any p l || p x)
  any-snoc p [] x = ground arith
  any-snoc p (y ∷ l) x = ground (arith, any-snoc p l x)

  -- What a filter lets go was there only at the end.
  pub filter-snoc :
      (p : A → Bool) (l : List A) (x : A)
      → any p l ≡ false
      → p x ≡ true
      → filter (λ y. not (p y)) (l ++ x ∷ []) ≡ l
  filter-snoc p [] x h k = ground arith
  filter-snoc p (y ∷ l) x h k = ground (arith, filter-snoc p l x)

  pub filter-none : (p : A → Bool) (l : List A) → any p l ≡ false → filter (λ y. not (p y)) l ≡ l
  filter-none p [] h = refl
  filter-none p (y ∷ l) h = ground (arith, filter-none p l)

  pub any-false :
      (p q : A → Bool) (l : List A)
      → ((x : A) → p x ≡ true → q x ≡ true)
      → any q l ≡ false
      → any p l ≡ false
  any-false p q [] f h = refl
  any-false p q (y ∷ l) f h = ground (arith, any-false p q l f, f y)

  pub any-true :
      (p q : A → Bool) (l : List A)
      → ((x : A) → p x ≡ true → q x ≡ true)
      → any p l ≡ true
      → any q l ≡ true
  any-true p q [] f h = cc
  any-true p q (y ∷ l) f h = ground (arith, any-true p q l f, f y)

  pub any-append : (p : A → Bool) (l m : List A) → any p (l ++ m) ≡ (any p l || any p m)
  any-append p [] m = ground arith
  any-append p (y ∷ l) m = ground (arith, any-append p l m)

  pub all-and :
      (p q r : A → Bool) (l : List A)
      → ((x : A) → p x ≡ true → q x ≡ true → r x ≡ true)
      → all p l ≡ true
      → all q l ≡ true
      → all r l ≡ true
  all-and p q r [] f h k = refl
  all-and p q r (y ∷ l) f h k = ground (arith, all-and p q r l f, f y)

  pub all-true :
      (p q : A → Bool) (l : List A)
      → ((x : A) → p x ≡ true → q x ≡ true)
      → all p l ≡ true
      → all q l ≡ true
  all-true p q [] f h = refl
  all-true p q (y ∷ l) f h = ground (arith, all-true p q l f, f y)
