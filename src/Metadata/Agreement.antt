-- ===== src/Metadata/Agreement.antt =====
-- The migration and the models declare one schema (alembic/versions and app/models).
use mathlib.Core.Option.{bind}
use hub_meta_conversion_serv.Base.{
  ◌≡◌, refl, ◌∙◌, ap, Bool, true, false, not, ◌&&◌, str_eq, Option, none, some, List, [], ◌∷◌, ◌++◌,
  map, any, all, ◌==◌,
}
use hub_meta_conversion_serv.Ddl.{
  ColumnType, uuid, jsonb, integer, datetime_tz, string, numeric, ServerDefault, now, text, Column,
  ForeignKey, UniqueConstraint, TableDef, IndexDef, Catalog, Ddl,
}
use hub_meta_conversion_serv.Metadata.{tablename, snake_rest, Model, table_of, indexes_of, models}
use hub_meta_conversion_serv.Migrations.{run, upgrade, downgrade}
use hub_meta_conversion_serv.Migrations.Closed.{Closed}
use hub_meta_conversion_serv.Migrations.RoundTrip.{downgrade-upgrade}
use hub_meta_conversion_serv.Migrations.Frame.{beside, migrated, NamesFree, upgrade-beside}

abbrev same_list : {A : Type 0} → (A → A → Bool) → List A → List A → Bool
same_list same [] [] = true
same_list same [] (y ∷ m) = false
same_list same (x ∷ l) [] = false
same_list same (x ∷ l) (y ∷ m) = same x y && same_list same l m

abbrev same_option : {A : Type 0} → (A → A → Bool) → Option A → Option A → Bool
same_option same none none = true
same_option same none (some y) = false
same_option same (some x) none = false
same_option same (some x) (some y) = same x y

-- Two lists that hold the same, whatever the order.
abbrev same_set : {A : Type 0} → (A → A → Bool) → List A → List A → Bool
same_set same l m = all (λ x. any (same x) m) l && all (λ y. any (λ x. same x y) l) m

abbrev same_type : ColumnType → ColumnType → Bool
same_type uuid uuid = true
same_type jsonb jsonb = true
same_type integer integer = true
same_type datetime_tz datetime_tz = true
same_type (string n) (string m) = same_option (λ a b. a == b) n m
same_type (numeric p s) (numeric q r) = p == q && s == r
same_type _ _ = false

abbrev same_default : ServerDefault → ServerDefault → Bool
same_default now now = true
same_default (text s) (text t) = str_eq s t
same_default _ _ = false

abbrev same_key : ForeignKey → ForeignKey → Bool
same_key k l =
    str_eq k.table l.table
    && str_eq k.column l.column
    && same_option (λ a b. str_eq a b) k.ondelete l.ondelete

-- A column of a model and one of the database. A default that the model leaves to Python is no
-- server default there.
abbrev same_column : Column → Column → Bool
same_column x y =
    str_eq x.name y.name
    && same_type x.type y.type
    && same_bool x.nullable y.nullable
    && same_bool x.primary_key y.primary_key
    && same_option same_key x.foreign_key y.foreign_key
    && defaulted x.server_default y.server_default
  where
    same_bool : Bool → Bool → Bool
    same_bool true b = b
    same_bool false b = not b

    defaulted : Option ServerDefault → Option ServerDefault → Bool
    defaulted none d = true
    defaulted (some d) e = same_option same_default (some d) e

abbrev same_unique : UniqueConstraint → UniqueConstraint → Bool
same_unique u v = str_eq u.name v.name && same_list (λ a b. str_eq a b) u.columns v.columns

abbrev same_table : TableDef → TableDef → Bool
same_table t u =
    str_eq t.name u.name
    && same_set same_column t.columns u.columns
    && same_set same_unique t.uniques u.uniques

abbrev same_index : IndexDef → IndexDef → Bool
same_index i j =
    str_eq i.name j.name
    && str_eq i.table j.table
    && same_list (λ a b. str_eq a b) i.columns j.columns

abbrev indexes_of_all : List Model → List IndexDef
indexes_of_all [] = []
indexes_of_all (m ∷ ms) = indexes_of m ++ indexes_of_all ms

-- A schema with a table for each model and an index for each indexed column, and no other.
unfoldable pub declares : List Model → Catalog → Bool
declares ms c =
    same_set same_table (map table_of ms) c.tables
    && same_set same_index (indexes_of_all ms) c.indexes

migrated-models : declares models migrated ≡ true
unfolding declares table_of indexes_of tablename snake_rest
migrated-models = refl

-- Where the names of the migration are free, it runs through and adds behind what is there exactly
-- a table for each ORM model, with its columns, keys and unique constraints, and an index for each
-- indexed column, under the names that the base class and its naming convention give. Server
-- defaults are compared where the model has one.
pub schema_is_migrated :
    (ddl : Ddl) (c : Catalog)
    → NamesFree upgrade c
    → (made : Catalog) × (run ddl upgrade c ≡ some (beside c made)) × (declares models made ≡ true)
schema_is_migrated ddl c h = (migrated, upgrade-beside ddl c h, migrated-models)

-- Every foreign key and every index of the schema stands on a table that is there, and the names
-- of the tables, constraints and indexes of the migration are free. Then upgrading and downgrading
-- both run through, and leave the schema as it was.
pub downgrade_restores :
    (ddl : Ddl) (c : Catalog)
    → Closed c
    → NamesFree upgrade c
    → bind (run ddl upgrade c) (λ d. run ddl downgrade d) ≡ some c
unfolding bind
downgrade_restores ddl c closed h =
    let done = upgrade-beside ddl c h in
    ap (λ o. bind o (λ d. run ddl downgrade d)) done
    ∙ downgrade-upgrade ddl c (beside c migrated) closed done
