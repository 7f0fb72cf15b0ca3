-- ===== src/Migrations/RoundTrip.antt =====
-- The initial migration run on a schema, and run back (alembic/versions).
use mathlib.Core.Option.{bind}
use hub_meta_conversion_serv.Base.{
  inl, inr, Bool-cases, Option-cases, fun_ext, ◌≡◌, refl, sym, ◌∙◌, ap, subst, arith, Option, none,
  some, List, [], ◌∷◌, ◌++◌, map,
}
use hub_meta_conversion_serv.Ddl.{
  TableDef, IndexDef, Op, create_table, create_index, drop_table, drop_index, Catalog, Ddl,
  creatable, indexable,
}
use hub_meta_conversion_serv.Migrations.{
  run, upgrade, downgrade, advertisers_table, pixels_table, conversion_tags_table,
  oauth_tokens_table, idempotency_records_table, index,
}
use hub_meta_conversion_serv.Migrations.Closed.{
  Closed, with_table, with_index, create_table-Closed, drop-create_table, create_index-Closed,
  drop-create_index,
}

-- What a migration creates, and the operations that create and drop it.
pub data Creation : Type 0 where
  table : TableDef → Creation
  index_on : IndexDef → Creation

abbrev pub make : Creation → Op
make (table t) = create_table t
make (index_on i) = create_index i

abbrev undo : Creation → Op
undo (table t) = drop_table t.name
undo (index_on i) = drop_index i.name i.table

abbrev undo_all : List Creation → List Op
undo_all [] = []
undo_all (x ∷ xs) = undo_all xs ++ undo x ∷ []

abbrev pub creations : List Creation
creations =
    table advertisers_table
    ∷ table pixels_table
    ∷ index_on (index "ix_pixels_advertiser_id" "pixels" "advertiser_id")
    ∷ table conversion_tags_table
    ∷ index_on (index "ix_conversion_tags_advertiser_id" "conversion_tags" "advertiser_id")
    ∷ index_on (index "ix_conversion_tags_pixel_id" "conversion_tags" "pixel_id")
    ∷ table oauth_tokens_table
    ∷ index_on (index "ix_oauth_tokens_advertiser_id" "oauth_tokens" "advertiser_id")
    ∷ table idempotency_records_table
    ∷ []

pub upgrade-creations : upgrade ≡ map make creations
unfolding upgrade
upgrade-creations = refl

downgrade-creations : downgrade ≡ undo_all creations
unfolding downgrade
downgrade-creations = refl

bind_assoc :
    {A B C : Type 0} (o : Option A) (f : A → Option B) (g : B → Option C)
    → bind (bind o f) g ≡ bind o (λ a. bind (f a) g)
unfolding bind
bind_assoc none f g = refl
bind_assoc (some a) f g = refl

module _ (ddl : Ddl) where
  run-append :
      (xs ys : List Op) (c : Catalog)
      → run ddl (xs ++ ys) c ≡ bind (run ddl xs c) (λ d. run ddl ys d)
  unfolding run bind
  run-append [] ys c = refl
  run-append (x ∷ xs) ys c =
      ap (bind (ddl.apply x c)) (fun_ext (λ d. run-append xs ys d))
      ∙ sym (bind_assoc (ddl.apply x c) (λ d. run ddl xs d) (λ d. run ddl ys d))

  -- One creation, and what takes it back.
  undo-make :
      (x : Creation) (c d : Catalog)
      → Closed c
      → ddl.apply (make x) c ≡ some d
      → Closed d × (ddl.apply (undo x) d ≡ some c)
  undo-make (table t) c d h e = elim (Bool-cases (creatable t c)) [
    | inl can ↦
        let q : Path Catalog (with_table ddl t c) d = ground (arith, ddl.creates_table t c) in
        subst (λ d. Closed d × (ddl.apply (drop_table t.name) d ≡ some c)) q
          (create_table-Closed ddl t c can h, drop-create_table ddl t c can h)
    | inr cannot ↦ absurd (ground (arith, ddl.creates_table t c))
  ]
  undo-make (index_on i) c d h e = elim (Bool-cases (indexable i c)) [
    | inl can ↦
        let q : Path Catalog (with_index ddl i c) d = ground (arith, ddl.creates_index i c) in
        subst (λ d. Closed d × (ddl.apply (drop_index i.name i.table) d ≡ some c)) q
          (create_index-Closed ddl i c can h, drop-create_index ddl i c can)
    | inr cannot ↦ absurd (ground (arith, ddl.creates_index i c))
  ]

  -- Creations, taken back in the opposite order.
  undo_all-make :
      (xs : List Creation) (c d : Catalog)
      → Closed c
      → run ddl (map make xs) c ≡ some d
      → run ddl (undo_all xs) d ≡ some c
  unfolding run bind
  undo_all-make [] c d h e = sym e
  undo_all-make (x ∷ xs) c d h e = elim (Option-cases (ddl.apply (make x) c)) [
    | inl n ↦ absurd (ground (arith, n, e))
    | inr (m, made) ↦
        let (closed, back) = undo-make x c m h made in
        let rest =
          undo_all-make xs m d closed
            (ap (λ o. bind o (λ m. run ddl (map make xs) m)) (sym made) ∙ e) in
        rw (run-append (undo_all xs) (undo x ∷ []) d, rest, back) refl
  ]

  pub downgrade-upgrade :
      (c d : Catalog) → Closed c → run ddl upgrade c ≡ some d → run ddl downgrade d ≡ some c
  downgrade-upgrade c d h e =
      ap (λ ops. run ddl ops d) downgrade-creations
      ∙ undo_all-make creations c d h (ap (λ ops. run ddl ops c) (sym upgrade-creations) ∙ e)
