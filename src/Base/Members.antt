-- ===== src/Base/Members.antt =====
-- The members of lists that are looked up, extended and rewritten.
use mathlib.Core.Path.{◌≡◌, refl, sym}
use mathlib.Core.Logic.{◌⊎◌, inl, inr}
use mathlib.Core.Bool.{Bool, true}
use mathlib.Core.List.{List, [], ◌∷◌, ◌++◌, Memᴰ}
use mathlib.Core.List.Memᴰ.{head, tail}
use mathlib.Core.Option
use mathlib.Core.Option.{none, some}
use native.Mathlib.Omega.{arith}
use hub_meta_conversion_serv.Base.Tests.{if◌then◌else◌, Bool-cases}
use hub_meta_conversion_serv.Base.Lists.{find, update}

module _ {A : Type 0} where
  pub last-Mem : (l : List A) (x : A) → Memᴰ x (l ++ x ∷ [])
  last-Mem [] x = head refl
  last-Mem (y ∷ l) x = tail (last-Mem l x)

  -- A row that the test passes is rewritten where it stands.
  pub rewritten-Mem :
      (p : A → Bool) (f : A → A) (l : List A) (x : A)
      → p x ≡ true
      → Memᴰ x l
      → Memᴰ (f x) (update p f l)
  rewritten-Mem p f [] x e m = elim m [ ]
  rewritten-Mem p f (y ∷ l) x e (head q) = head (rw (sym q, e) refl)
  rewritten-Mem p f (y ∷ l) x e (tail m) = tail (rewritten-Mem p f l x e m)

  pub find-Mem : (p : A → Bool) (l : List A) (x : A) → find p l ≡ some x → Memᴰ x l
  find-Mem p [] x e = cc
  find-Mem p (y ∷ l) x e = elim (Bool-cases (p y)) [
    | inl t ↦ head (ground (arith, t, e))
    | inr f ↦ tail (find-Mem p l x (ground (arith, f, e)))
  ]

  pub snoc_cases : (l : List A) (x y : A) → Memᴰ x (l ++ y ∷ []) → Memᴰ x l ⊎ (x ≡ y)
  snoc_cases [] x y (head e) = inr e
  snoc_cases [] x y (tail m) = elim m [ ]
  snoc_cases (z ∷ l) x y (head e) = inl (head e)
  snoc_cases (z ∷ l) x y (tail m) = elim (snoc_cases l x y m) [
    | inl k ↦ inl (tail k)
    | inr e ↦ inr e
  ]

  -- A lookup after a rewrite that leaves the test.
  pub find-update :
      (q p : A → Bool) (f : A → A) (l : List A)
      → ((x : A) → q (f x) ≡ q x)
      → find q (update p f l) ≡ Option.map (λ x. if p x then f x else x) (find q l)
  find-update q p f [] h = refl
  find-update q p f (x ∷ l) h = ground (arith, find-update q p f l h, h x)

  -- Every row after a rewrite comes from one before.
  pub origin-Mem :
      (p : A → Bool) (f : A → A) (l : List A) (y : A)
      → Memᴰ y (update p f l)
      → (x : A) × Memᴰ x l × (y ≡ (if p x then f x else x))
  origin-Mem p f [] y m = elim m [ ]
  origin-Mem p f (x ∷ l) y (head e) = (x, head refl, e)
  origin-Mem p f (x ∷ l) y (tail m) = let (z, k, e) = origin-Mem p f l y m in (z, tail k, e)
