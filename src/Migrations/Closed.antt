-- ===== src/Migrations/Closed.antt =====
-- Schemas in which nothing dangles, under the operations of a migration (alembic/versions).
use hub_meta_conversion_serv.Base.{
  any-snoc, filter-snoc, filter-none, any-false, any-true, ◌≡◌, refl, arith, Bool, true, false, not,
  ◌&&◌, String, str_eq, eq_iff, Option, none, some, List, [], ◌∷◌, ◌++◌, any, all,
}
use hub_meta_conversion_serv.Ddl.{
  TableDef, IndexDef, drop_table, drop_index, Catalog, Ddl, taken, creatable, indexable, provides,
  table_names, refers_to, column_satisfied, has_column, Column, ForeignKey,
}

-- Foreign keys and indexes stand on tables that are there.
pub record Closed (c : Catalog) : Type 0 where
  pub references :
      (n : String)
      → any (λ t. any (refers_to n) t.columns) c.tables ≡ true
      → any (λ t. str_eq n t.name) c.tables ≡ true
  pub indexed :
      (n : String)
      → any (λ i. str_eq n i.table) c.indexes ≡ true
      → any (λ t. str_eq n t.name) c.tables ≡ true

abbrev named : String → TableDef → Bool
named n t = str_eq n t.name

untaken : (c : Catalog) (n : String) → taken c n ≡ false → any (named n) c.tables ≡ false
untaken c n h =
    any-false (named n) (λ t. any (str_eq n) (table_names t)) c.tables (λ t e. ground arith)
      (ground arith)

contrapositive : (a b : Bool) → (a ≡ true → b ≡ true) → b ≡ false → a ≡ false
contrapositive a b f h = ground (arith, f)

-- A column that refers to a table, where every column finds its table.
satisfied-named :
    (ts : List TableDef) (n : String) (o : Option ForeignKey)
    → column_satisfied ts o ≡ true
    → elim o [ none ↦ false | some k ↦ str_eq n k.table ] ≡ true
    → any (named n) ts ≡ true
satisfied-named ts n none h e = cc
satisfied-named ts n (some k) h e =
    let same = (eq_iff n k.table).0 e in
    any-true (provides k) (named n) ts (λ t g. rw same (ground arith)) h

columns-named :
    (ts : List TableDef) (n : String) (cols : List Column)
    → all (λ x. column_satisfied ts x.foreign_key) cols ≡ true
    → any (refers_to n) cols ≡ true
    → any (named n) ts ≡ true
columns-named ts n [] h e = cc
columns-named ts n (x ∷ cols) h e =
    ground (arith, columns-named ts n cols, satisfied-named ts n x.foreign_key)

module _ (ddl : Ddl) (t : TableDef) (c : Catalog) where
  abbrev pub with_table : Catalog
  with_table = record c { tables = c.tables ++ t ∷ [] }

  free_name : creatable t c ≡ true → any (named t.name) c.tables ≡ false
  free_name e = untaken c t.name (ground arith)

  pub create_table-Closed : creatable t c ≡ true → Closed c → Closed with_table
  create_table-Closed e h = record {
    references = λ n r. rw (any-snoc (named n) c.tables t) (
        ground (
          arith,
          r,
          any-snoc (λ t. any (refers_to n) t.columns) c.tables t,
          h.references n,
          columns-named (t ∷ c.tables) n t.columns,
          e,
        ));
    indexed = λ n r. rw (any-snoc (named n) c.tables t) (ground (arith, h.indexed n, r));
  }

  pub drop-create_table :
      creatable t c ≡ true → Closed c → ddl.apply (drop_table t.name) with_table ≡ some c
  drop-create_table e h =
      let free = free_name e in
      let same = (eq_iff t.name t.name).1 refl in
      let alone : any (λ u. not (named t.name u) && any (refers_to t.name) u.columns) c.tables
          ≡ false =
        any-false _ (λ u. any (refers_to t.name) u.columns) c.tables (λ u g. ground arith)
          (contrapositive _ _ (h.references t.name) free) in
      let tables = filter-snoc (named t.name) c.tables t free same in
      let indexes =
        filter-none (λ i. str_eq t.name i.table) c.indexes
          (contrapositive _ _ (h.indexed t.name) free) in
      rw
        (
          ddl.drops_table t.name with_table,
          any-snoc (named t.name) c.tables t,
          any-snoc (λ u. not (named t.name u) && any (refers_to t.name) u.columns) c.tables t,
          free,
          same,
          alone,
          tables,
          indexes,
        )
        refl

module _ (ddl : Ddl) (i : IndexDef) (c : Catalog) where
  abbrev pub with_index : Catalog
  with_index = record c { indexes = c.indexes ++ i ∷ [] }

  pub create_index-Closed : indexable i c ≡ true → Closed c → Closed with_index
  create_index-Closed e h = record {
    references = h.references;
    indexed = λ n r. ground (
      arith,
      any-snoc (λ i. str_eq n i.table) c.indexes i,
      r,
      h.indexed n,
      e,
      eq_iff n i.table,
      any-true (λ t. str_eq i.table t.name && all (has_column t) i.columns) (named i.table) c.tables
          (λ t g. ground arith),
    );
  }

  pub drop-create_index :
      indexable i c ≡ true → ddl.apply (drop_index i.name i.table) with_index ≡ some c
  drop-create_index e =
      let free : any (λ j. str_eq i.name j.name) c.indexes ≡ false = ground arith in
      let same = (eq_iff i.name i.name).1 refl in
      rw
        (
          ddl.drops_index i.name i.table with_index,
          any-snoc (λ j. str_eq i.name j.name) c.indexes i,
          free,
          same,
          filter-snoc (λ j. str_eq i.name j.name) c.indexes i free same,
        )
        refl
