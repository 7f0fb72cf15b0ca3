-- ===== src/Base/Sorted.antt =====
-- Lists in order, under a Boolean test.
use mathlib.Core.Path.{◌≡◌, ◌∙◌}
use mathlib.Core.Bool.{Bool, true}
use mathlib.Core.List.{List, [], ◌∷◌, map}
use hub_meta_conversion_serv.Base.Lists.{All}

-- Every element stands before all that follow it.
abbrev pub IsSorted : {A : Type 0} → (A → A → Bool) → List A → Type 0
IsSorted before [] = Unit
IsSorted before (x ∷ xs) = All (λ y. before x y ≡ true) xs × IsSorted before xs

module _ {A B : Type 0} (before : A → A → Bool) (after : B → B → Bool) (f : A → B)
    (same : (x y : A) → after (f x) (f y) ≡ before x y) where
  All-map_before :
      (x : A) (l : List A)
      → All (λ y. before x y ≡ true) l
      → All (λ y. after (f x) y ≡ true) (map f l)
  All-map_before x [] h = tt
  All-map_before x (y ∷ l) h = (same x y ∙ h.0, All-map_before x l h.1)

  pub map-IsSorted : (l : List A) → IsSorted before l → IsSorted after (map f l)
  map-IsSorted [] h = tt
  map-IsSorted (x ∷ l) h = (All-map_before x l h.0, map-IsSorted l h.1)
