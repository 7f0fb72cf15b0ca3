-- ===== src/Migrations/Frame.antt =====
-- The initial migration beside what the database already holds (alembic/versions).
use mathlib.Core.Option.{bind}
use mathlib.Core.List.{append_assoc, append-nil}
use hub_meta_conversion_serv.Base.{
  any-append, all-and, all-true, inl, inr, Bool-cases, Option-cases, fun_ext, ◌≡◌, refl, sym, ◌∙◌,
  ap, ap₂, subst, arith, Bool, true, not, ◌&&◌, ◌||◌, String, str_eq, Option, none, some, List, [],
  ◌∷◌, ◌++◌, map, any, all, if◌then◌else◌,
}
use hub_meta_conversion_serv.Ddl.{
  TableDef, IndexDef, Op, create_table, create_index, drop_table, drop_index, Catalog, Ddl, taken,
  creatable, indexable, droppable, without_table, without_index, provides, table_names,
  column_satisfied, has_column, ForeignKey,
}
use hub_meta_conversion_serv.Migrations.{
  run, upgrade, advertisers_table, pixels_table, conversion_tags_table, oauth_tokens_table,
  idempotency_records_table, index,
}
use hub_meta_conversion_serv.Migrations.RoundTrip.{
  Creation, table, index_on, make, creations, upgrade-creations,
}

-- What Postgres does, as a function.
abbrev perform : Op → Catalog → Option Catalog
perform (create_table t) c =
    if creatable t c then some (record c { tables = c.tables ++ t ∷ [] }) else none
perform (create_index i) c =
    if indexable i c then some (record c { indexes = c.indexes ++ i ∷ [] }) else none
perform (drop_table n) c = if droppable n c then some (without_table n c) else none
perform (drop_index n t) c =
    if any (λ i. str_eq n i.name) c.indexes then some (without_index n c) else none

abbrev pub performing : Ddl
performing = record {
  apply = perform;
  creates_table = λ t c. refl;
  creates_index = λ i c. refl;
  drops_table = λ n c. refl;
  drops_index = λ n t c. refl;
}

module _ (ddl : Ddl) where
  apply-perform : (op : Op) (c : Catalog) → ddl.apply op c ≡ perform op c
  apply-perform (create_table t) c = ddl.creates_table t c
  apply-perform (create_index i) c = ddl.creates_index i c
  apply-perform (drop_table n) c = ddl.drops_table n c
  apply-perform (drop_index n t) c = ddl.drops_index n t c

  pub run-performing : (ops : List Op) (c : Catalog) → run ddl ops c ≡ run performing ops c
  unfolding run bind
  run-performing [] c = refl
  run-performing (op ∷ ops) c =
      ap₂ (λ o f. bind o f) (apply-perform op c) (fun_ext (λ d. run-performing ops d))

-- What was there, and behind it what a migration has made.
abbrev pub beside : Catalog → Catalog → Catalog
beside base made = record {
  tables = base.tables ++ made.tables;
  indexes = base.indexes ++ made.indexes;
}

abbrev pub created_names : Op → List String
created_names (create_table t) = table_names t
created_names (create_index i) = i.name ∷ []
created_names _ = []

abbrev pub free : Catalog → List String → Bool
free c = all (λ n. not (taken c n))

module _ (base made : Catalog) where
  taken-beside : (n : String) → taken (beside base made) n ≡ (taken base n || taken made n)
  taken-beside n = ground (
    arith,
    any-append (λ t. any (str_eq n) (table_names t)) base.tables made.tables,
    any-append (λ i. str_eq n i.name) base.indexes made.indexes,
  )

  free-beside :
      (l : List String) → free base l ≡ true → free made l ≡ true → free (beside base made) l ≡ true
  free-beside l =
      all-and (λ n. not (taken base n)) (λ n. not (taken made n)) _ l
        (λ n h k. ground (arith, taken-beside n))

  satisfied-beside :
      (t : TableDef) (o : Option ForeignKey)
      → column_satisfied (t ∷ made.tables) o ≡ true
      → column_satisfied (t ∷ base.tables ++ made.tables) o ≡ true
  satisfied-beside t none h = refl
  satisfied-beside t (some k) h = ground (arith, any-append (provides k) base.tables made.tables)

  creatable-beside :
      (t : TableDef)
      → free base (table_names t) ≡ true
      → creatable t made ≡ true
      → creatable t (beside base made) ≡ true
  creatable-beside t h k = ground (
    arith,
    free-beside (table_names t) h,
    all-true (λ x. column_satisfied (t ∷ made.tables) x.foreign_key)
        (λ x. column_satisfied (t ∷ base.tables ++ made.tables) x.foreign_key) t.columns
        (λ x. satisfied-beside t x.foreign_key),
  )

  indexable-beside :
      (i : IndexDef)
      → free base (i.name ∷ []) ≡ true
      → indexable i made ≡ true
      → indexable i (beside base made) ≡ true
  indexable-beside i h k = ground (
    arith,
    taken-beside i.name,
    any-append (λ t. str_eq i.table t.name && all (has_column t) i.columns) base.tables made.tables,
  )

  make-beside :
      (x : Creation) (d : Catalog)
      → free base (created_names (make x)) ≡ true
      → perform (make x) made ≡ some d
      → perform (make x) (beside base made) ≡ some (beside base d)
  make-beside (table t) d h e = elim (Bool-cases (creatable t made)) [
    | inl can ↦
        let q : Path Catalog (record made { tables = made.tables ++ t ∷ [] }) d = ground arith in
        rw (creatable-beside t h can, append_assoc base.tables made.tables (t ∷ []))
          (ap (λ d. some (beside base d)) q)
    | inr cannot ↦ absurd (ground arith)
  ]
  make-beside (index_on i) d h e = elim (Bool-cases (indexable i made)) [
    | inl can ↦
        let q : Path Catalog (record made { indexes = made.indexes ++ i ∷ [] }) d = ground arith in
        rw (indexable-beside i h can, append_assoc base.indexes made.indexes (i ∷ []))
          (ap (λ d. some (beside base d)) q)
    | inr cannot ↦ absurd (ground arith)
  ]

-- Creations run beside a schema in which their names are free as they do on their own.
run-beside :
    (base : Catalog) (xs : List Creation) (made d : Catalog)
    → all (λ op. free base (created_names op)) (map make xs) ≡ true
    → run performing (map make xs) made ≡ some d
    → run performing (map make xs) (beside base made) ≡ some (beside base d)
unfolding run bind
run-beside base [] made d h e = ground arith
run-beside base (x ∷ xs) made d h e = elim (Option-cases (perform (make x) made)) [
  | inl n ↦ absurd (ground (arith, n, e))
  | inr (m, step) ↦
      let rest =
        run-beside base xs m d (ground arith)
          (ap (λ o. bind o (λ m. run performing (map make xs) m)) (sym step) ∙ e) in
      rw (make-beside base made x m (ground arith) step, rest) refl
]

abbrev pub empty : Catalog
empty = record { tables = []; indexes = [] }

beside-empty : (c : Catalog) → beside c empty ≡ c
beside-empty c = rw (append-nil c.tables, append-nil c.indexes) refl

abbrev made_tables : List TableDef
made_tables =
    advertisers_table ∷ pixels_table ∷ conversion_tags_table ∷ oauth_tokens_table
    ∷ idempotency_records_table ∷ []

abbrev made_indexes : List IndexDef
made_indexes =
    index "ix_pixels_advertiser_id" "pixels" "advertiser_id"
    ∷ index "ix_conversion_tags_advertiser_id" "conversion_tags" "advertiser_id"
    ∷ index "ix_conversion_tags_pixel_id" "conversion_tags" "pixel_id"
    ∷ index "ix_oauth_tokens_advertiser_id" "oauth_tokens" "advertiser_id"
    ∷ []

-- What the migration leaves in an empty schema.
abbrev pub migrated : Catalog
migrated = record { tables = made_tables; indexes = made_indexes }

run-empty : run performing (map make creations) empty ≡ some migrated
unfolding run bind
run-empty = refl

-- The names of all that a migration creates are free.
abbrev pub NamesFree : List Op → Catalog → Type 0
NamesFree ops c = all (λ op. free c (created_names op)) ops ≡ true

pub upgrade-beside :
    (ddl : Ddl) (c : Catalog) → NamesFree upgrade c → run ddl upgrade c ≡ some (beside c migrated)
upgrade-beside ddl c h =
    let h' = subst (λ ops. NamesFree ops c) upgrade-creations h in
    run-performing ddl upgrade c
    ∙ ap (λ ops. run performing ops c) upgrade-creations
    ∙ ap (λ d. run performing (map make creations) d) (sym (beside-empty c))
    ∙ run-beside c creations empty migrated h' run-empty
