-- ===== src/Meta/Mock/Names.antt =====
-- The names of the conversions of app/integrations/meta/mock_adapter.py.
use hub_meta_conversion_serv.Base.{
  ◌≡◌, refl, sym, ap₂, ap, ◌∙◌, true, false, String, Option, none, some, List, [], ◌∷◌, eq_iff,
  arith, dict_get, get-set_same, get-set_kept, Bool-cases, inl, inr,
}
use hub_meta_conversion_serv.Exec.{ok, ◌>>=◌, pure, raise}
use hub_meta_conversion_serv.Meta.Schemas.{MetaPixel, CustomConversion, CustomConversionCreateInput}
use hub_meta_conversion_serv.Meta.Mock.{
  MockMeta, same_pair, seed_pixels, maybe_fail, list_pixels, new_conversion, keep_or_create,
  create_locked, create_custom_conversion,
}

-- What can be asked of the mock.
pub data MockCall : Type 0 where
  seed : String → List MetaPixel → MockCall
  list : String → String → MockCall
  create : String → String → CustomConversionCreateInput → MockCall

abbrev named : String → String → MockMeta → Option CustomConversion
named account name m = dict_get same_pair (account, name) m.conversions_by_name

same_pair_refl : (a : String × String) → same_pair a a ≡ true
same_pair_refl a = ground (arith, eq_iff a.0 a.0, eq_iff a.1 a.1)

same_pair-eq : (a b : String × String) → same_pair a b ≡ true → (a.0 ≡ b.0) × (a.1 ≡ b.1)
same_pair-eq a b h = (ground (arith, eq_iff a.0 b.0), ground (arith, eq_iff a.1 b.1))

-- `maybe_fail` counts, and nothing more.
maybe_fail-named :
    (account name : String) (m : MockMeta)
    → named account name (maybe_fail m).1 ≡ named account name m
unfolding maybe_fail pure raise
maybe_fail-named account name m = ground arith

maybe_fail-conversions : (m : MockMeta) → (maybe_fail m).1.conversions ≡ m.conversions
unfolding maybe_fail pure raise
maybe_fail-conversions m = ground arith

module _ (sha1_hex : String → String) where
  unfoldable pub run : MockCall → MockMeta → MockMeta
  run (seed account pixels) m = seed_pixels account pixels m
  run (list account token) m = (list_pixels account token m).1
  run (create account token payload) m =
      (create_custom_conversion sha1_hex account token payload m).1

  unfoldable pub run_all : List MockCall → MockMeta → MockMeta
  run_all [] m = m
  run_all (c ∷ rest) m = run_all rest (run c m)

  module _ (account name : String) (c : CustomConversion) where
    -- A second conversion is never made under the name of a first.
    other_name :
        (a : String) (p : CustomConversionCreateInput) (m : MockMeta)
        → named a p.name m ≡ none
        → named account name m ≡ some c
        → same_pair (a, p.name) (account, name) ≡ false
    other_name a p m free h = elim (Bool-cases (same_pair (a, p.name) (account, name))) [
      | inl e ↦
          let (x, y) = same_pair-eq (a, p.name) (account, name) e in
          absurd (taken (sym free ∙ ap₂ (λ s t. named s t m) x y ∙ h))
      | inr e ↦ e
    ]
      where
        taken : ◌≡◌ {A = Option CustomConversion} none (some c) → ⊥
        taken q = ground arith

    keep_or_create-kept :
        (a : String) (p : CustomConversionCreateInput) (m : MockMeta) (o : Option CustomConversion)
        → named a p.name m ≡ o
        → named account name m ≡ some c
        → named account name (keep_or_create sha1_hex a p o m).1 ≡ some c
    unfolding keep_or_create pure
    keep_or_create-kept a p m (some existing) e h = h
    keep_or_create-kept a p m none e h =
        get-set_kept same_pair (a, p.name) (account, name) (new_conversion sha1_hex a p) c
          m.conversions_by_name h (other_name a p m e h) through
      where
        through :
            (k : String × String)
            → same_pair k (a, p.name) ≡ true
            → same_pair k (account, name) ≡ true
            → same_pair (a, p.name) (account, name) ≡ true
        through k x y =
            let (x0, x1) = same_pair-eq k (a, p.name) x in
            let (y0, y1) = same_pair-eq k (account, name) y in
            rw (sym x0, sym x1, y0, y1) (same_pair_refl (account, name))

    create_locked-kept :
        (a : String) (p : CustomConversionCreateInput) (m : MockMeta)
        → named account name m ≡ some c
        → named account name (create_locked sha1_hex a p m).1 ≡ some c
    unfolding create_locked raise
    create_locked-kept a p m h = ground (arith, keep_or_create-kept a p m (named a p.name m) refl h)

    run-kept :
        (call : MockCall) (m : MockMeta)
        → named account name m ≡ some c
        → named account name (run call m) ≡ some c
    unfolding run seed_pixels list_pixels create_custom_conversion ◌>>=◌
    run-kept (seed a pixels) m h = h
    run-kept (list a token) m h = ground (arith, maybe_fail-named account name m)
    run-kept (create a token p) m h =
        ground (arith, maybe_fail-named account name m, create_locked-kept a p (maybe_fail m).1)

    run_all-kept :
        (calls : List MockCall) (m : MockMeta)
        → named account name m ≡ some c
        → named account name (run_all calls m) ≡ some c
    unfolding run_all
    run_all-kept [] m h = h
    run_all-kept (call ∷ rest) m h = run_all-kept rest (run call m) (run-kept call m h)

  -- A conversion that is returned is on record under its name.
  keep_or_create-named :
      (a : String) (p : CustomConversionCreateInput) (m : MockMeta) (o : Option CustomConversion)
      (c : CustomConversion)
      → named a p.name m ≡ o
      → (keep_or_create sha1_hex a p o m).0 ≡ ok c
      → named a p.name (keep_or_create sha1_hex a p o m).1 ≡ some c
  unfolding keep_or_create pure
  keep_or_create-named a p m (some existing) c e h = ground arith
  keep_or_create-named a p m none c e h = ground (
    arith,
    get-set_same same_pair (a, p.name) (new_conversion sha1_hex a p) m.conversions_by_name
        (same_pair_refl (a, p.name)),
  )

  create-named :
      (a token : String) (p : CustomConversionCreateInput) (m : MockMeta) (c : CustomConversion)
      → (create_custom_conversion sha1_hex a token p m).0 ≡ ok c
      → named a p.name (create_custom_conversion sha1_hex a token p m).1 ≡ some c
  unfolding create_custom_conversion create_locked raise ◌>>=◌
  create-named a token p m c h =
      ground
        (arith, keep_or_create-named a p (maybe_fail m).1 (named a p.name (maybe_fail m).1) c refl)

  -- And a name on record is answered with what stands there.
  create-again :
      (a token : String) (p : CustomConversionCreateInput) (m : MockMeta) (c c' : CustomConversion)
      → named a p.name m ≡ some c
      → (create_custom_conversion sha1_hex a token p m).0 ≡ ok c'
      → (c' ≡ c) × ((create_custom_conversion sha1_hex a token p m).1 ≡ (maybe_fail m).1)
  unfolding create_custom_conversion create_locked keep_or_create pure raise ◌>>=◌
  create-again a token p m c c' k h = ground (arith, maybe_fail-named a p.name m)

  -- Once the mock adapter has returned a conversion, then after any further calls a request for
  -- the same account and name, whatever else it asks for, returns that conversion if it returns
  -- one at all, and adds no conversion.
  pub name_makes_one_conversion :
      (account token token' : String) (payload payload' : CustomConversionCreateInput)
      (m : MockMeta) (c c' : CustomConversion) (calls : List MockCall)
      → payload'.name ≡ payload.name
      → (create_custom_conversion sha1_hex account token payload m).0 ≡ ok c
      → (create_custom_conversion sha1_hex account token' payload'
          (run_all calls (create_custom_conversion sha1_hex account token payload m).1)).0
        ≡ ok c'
      → let later = run_all calls (create_custom_conversion sha1_hex account token payload m).1 in
        (c' ≡ c)
        × ((create_custom_conversion sha1_hex account token' payload' later).1.conversions
            ≡ later.conversions)
  name_makes_one_conversion account token token' payload payload' m c c' calls same made again =
      let first = (create_custom_conversion sha1_hex account token payload m).1 in
      let later = run_all calls first in
      let (x, y) =
        create-again account token' payload' later c c'
          (ap (λ n. named account n later) same
            ∙ run_all-kept account payload.name c calls first
                (create-named account token payload m c made))
          again in
      (x, ap (λ s. s.conversions) y ∙ maybe_fail-conversions later)
