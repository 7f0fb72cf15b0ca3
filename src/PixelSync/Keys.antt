-- ===== src/PixelSync/Keys.antt =====
-- The rows of `pixels` by their ids and by Meta's (app/models/pixel.py).
use mathlib.Core.List.{Memᴰ}
use hub_meta_conversion_serv.Base.{
  snoc_cases, origin-Mem, ℕ, suc, ◌<◌, ◌≡◌, ◌≢◌, refl, sym, ap, ◌∙◌, arith, Bool, true, false,
  String, Option, some, List, [], ◌∷◌, ◌++◌, str_eq, All, find, update, if◌then◌else◌, inl, inr,
}
use hub_meta_conversion_serv.Models.{Uuid, Pixel}
use hub_meta_conversion_serv.Meta.Schemas.{MetaPixel}

-- The row of a pixel of Meta.
abbrev pub row_of : List Pixel → String → Option Pixel
row_of l i = find (λ r. str_eq r.meta_pixel_id i) l

-- Primary keys: the ids are below the next one, and rows with one id are one row.
pub record Keyed (n : ℕ) (l : List Pixel) : Type 0 where
  pub below : (r : Pixel) → Memᴰ r l → r.id < n
  pub apart : (r s : Pixel) → Memᴰ r l → Memᴰ s l → r.id ≡ s.id → r.meta_pixel_id ≡ s.meta_pixel_id

-- The row of the pixel, with what Meta says of it.
pub record Copy (a : Uuid) (l : List Pixel) (p : MetaPixel) : Type 0 where
  pub row : Pixel
  pub found : row_of l p.id ≡ some row
  pub name : row.name ≡ p.name
  pub status : row.status ≡ p.status
  pub advertiser : row.advertiser_id ≡ a

-- No pixel of Meta is listed twice.
abbrev pub Distinct : List MetaPixel → Type 0
Distinct [] = Unit
Distinct (p ∷ rest) = All (λ q. q.id ≢ p.id) rest × Distinct rest

-- A new row with the next id keeps the keys.
pub snoc-Keyed :
    (n : ℕ) (l : List Pixel) (row : Pixel) → row.id ≡ n → Keyed n l → Keyed (suc n) (l ++ row ∷ [])
snoc-Keyed n l row e k = record {
  below = λ r m. elim (snoc_cases l r row m) [
    | inl old ↦ let lt = k.below r old in omega arith
    | inr new ↦ let same = ap (λ x. x.id) new in omega arith
  ];
  apart = λ r s m o same. elim (snoc_cases l r row m) [
    | inl x ↦ elim (snoc_cases l s row o) [
      | inl y ↦ k.apart r s x y same
      | inr y ↦ let lt = k.below r x in let q = ap (λ x. x.id) y in absurd (omega arith)
    ]
    | inr x ↦ elim (snoc_cases l s row o) [
      | inl y ↦ let lt = k.below s y in let q = ap (λ x. x.id) x in absurd (omega arith)
      | inr y ↦ ap (λ x. x.meta_pixel_id) (x ∙ sym y)
    ]
  ];
}

-- A rewrite that leaves the ids keeps the keys.
pub update-Keyed :
    (n : ℕ) (p : Pixel → Bool) (f : Pixel → Pixel) (l : List Pixel)
    → ((r : Pixel) → (f r).id ≡ r.id)
    → ((r : Pixel) → (f r).meta_pixel_id ≡ r.meta_pixel_id)
    → Keyed n l
    → Keyed n (update p f l)
update-Keyed n p f l same_id same_meta k = record {
  below = λ r m.
      let (x, o, e) = origin-Mem p f l r m in
      let lt = k.below x o in let q = ap (λ y. y.id) e ∙ kept_id (p x) x in omega arith;
  apart = λ r s m o same.
      let (x, xm, xe) = origin-Mem p f l r m in
      let (y, ym, ye) = origin-Mem p f l s o in
      ap (λ z. z.meta_pixel_id) xe
      ∙ kept_meta (p x) x
      ∙ k.apart x y xm ym
          (sym (ap (λ z. z.id) xe ∙ kept_id (p x) x) ∙ same ∙ ap (λ z. z.id) ye ∙ kept_id (p y) y)
      ∙ sym (ap (λ z. z.meta_pixel_id) ye ∙ kept_meta (p y) y);
}
  where
    kept_id : (b : Bool) (x : Pixel) → (if b then f x else x).id ≡ x.id
    kept_id true x = same_id x
    kept_id false x = refl

    kept_meta : (b : Bool) (x : Pixel) → (if b then f x else x).meta_pixel_id ≡ x.meta_pixel_id
    kept_meta true x = same_meta x
    kept_meta false x = refl
