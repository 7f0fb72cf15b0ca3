-- ===== src/Ddl.antt =====
-- The data definition language that the migration (alembic/versions) and the models (app/models)
-- use: tables, columns and indexes as data, and what Postgres makes of each operation.
use hub_meta_conversion_serv.Base.{
  ℕ, ◌≡◌, Bool, true, false, not, ◌&&◌, ◌||◌, String, str_eq, Option, none, some, List, [], ◌∷◌,
  ◌++◌, map, any, all, filter, if◌then◌else◌,
}

-- `sa.String(n)` or `sa.String`, `sa.Numeric(precision, scale)`, and `sa.DateTime(timezone=True)`.
pub data ColumnType : Type 0 where
  uuid jsonb integer datetime_tz : ColumnType
  string : Option ℕ → ColumnType
  numeric : ℕ → ℕ → ColumnType

-- `server_default`: `sa.func.now()`, or a text.
pub data ServerDefault : Type 0 where
  now : ServerDefault
  text : String → ServerDefault

-- `sa.ForeignKey("table.column", ondelete=…)`
pub record ForeignKey : Type 0 where
  pub table : String
  pub column : String
  pub ondelete : Option String

pub record Column : Type 0 where
  pub name : String
  pub type : ColumnType
  pub nullable : Bool
  pub primary_key : Bool
  pub foreign_key : Option ForeignKey
  pub server_default : Option ServerDefault

pub record UniqueConstraint : Type 0 where
  pub name : String
  pub columns : List String

pub record TableDef : Type 0 where
  pub name : String
  pub columns : List Column
  pub uniques : List UniqueConstraint

pub record IndexDef : Type 0 where
  pub name : String
  pub table : String
  pub columns : List String

-- The operations of `alembic.op` that the migration calls.
pub data Op : Type 0 where
  create_table : TableDef → Op
  create_index : IndexDef → Op
  drop_table : String → Op
  drop_index : String → String → Op

-- What a schema of the database holds, in the order of its creation.
pub record Catalog : Type 0 where
  pub tables : List TableDef
  pub indexes : List IndexDef

-- Tables, indexes and unique constraints share one space of names.
abbrev pub table_names : TableDef → List String
table_names t = t.name ∷ map (λ u. u.name) t.uniques

abbrev pub taken : Catalog → String → Bool
taken c n =
    any (λ t. any (str_eq n) (table_names t)) c.tables || any (λ i. str_eq n i.name) c.indexes

abbrev pub distinct : List String → Bool
distinct [] = true
distinct (n ∷ names) = not (any (str_eq n) names) && distinct names

-- A foreign key needs a table whose column is the primary key.
abbrev pub provides : ForeignKey → TableDef → Bool
provides k t = str_eq k.table t.name && any (λ c. str_eq k.column c.name && c.primary_key) t.columns

abbrev pub column_satisfied : List TableDef → Option ForeignKey → Bool
column_satisfied tables none = true
column_satisfied tables (some k) = any (provides k) tables

abbrev pub refers_to : String → Column → Bool
refers_to n c = elim c.foreign_key [ none ↦ false | some k ↦ str_eq n k.table ]

abbrev pub creatable : TableDef → Catalog → Bool
creatable t c =
    distinct (table_names t)
    && (distinct (map (λ x. x.name) t.columns)
        && (all (λ n. not (taken c n)) (table_names t)
            && all (λ x. column_satisfied (t ∷ c.tables) x.foreign_key) t.columns))

abbrev pub has_column : TableDef → String → Bool
has_column t n = any (λ x. str_eq n x.name) t.columns

abbrev pub indexable : IndexDef → Catalog → Bool
indexable i c =
    not (taken c i.name)
    && any (λ t. str_eq i.table t.name && all (has_column t) i.columns) c.tables

-- A table goes only if no other table refers to it, and takes its indexes along.
abbrev pub droppable : String → Catalog → Bool
droppable n c =
    any (λ t. str_eq n t.name) c.tables
    && not (any (λ t. not (str_eq n t.name) && any (refers_to n) t.columns) c.tables)

abbrev pub without_table : String → Catalog → Catalog
without_table n c = record {
  tables = filter (λ t. not (str_eq n t.name)) c.tables;
  indexes = filter (λ i. not (str_eq n i.table)) c.indexes;
}

abbrev pub without_index : String → Catalog → Catalog
without_index n c = record c { indexes = filter (λ i. not (str_eq n i.name)) c.indexes }

-- Postgres: an operation it refuses raises, which is `none`.
pub record Ddl : Type 0 where
  pub apply : Op → Catalog → Option Catalog
  pub creates_table :
      (t : TableDef) (c : Catalog)
      → apply (create_table t) c
        ≡ (if creatable t c then some (record c { tables = c.tables ++ t ∷ [] }) else none)
  pub creates_index :
      (i : IndexDef) (c : Catalog)
      → apply (create_index i) c
        ≡ (if indexable i c then some (record c { indexes = c.indexes ++ i ∷ [] }) else none)
  pub drops_table :
      (n : String) (c : Catalog)
      → apply (drop_table n) c ≡ (if droppable n c then some (without_table n c) else none)
  -- The table's name is not used on Postgres.
  pub drops_index :
      (n table : String) (c : Catalog)
      → apply (drop_index n table) c
        ≡ (if any (λ i. str_eq n i.name) c.indexes then some (without_index n c) else none)
