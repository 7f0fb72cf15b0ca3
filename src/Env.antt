-- ===== src/Env.antt =====
-- What the program does not implement, with the documented behaviour that the proofs rely on:
-- SQLAlchemy and Postgres, pydantic and json, hashlib and hmac, and Meta behind the adapter.
use mathlib.Core.List.{Perm}
use hub_meta_conversion_serv.Base.{
  IsSorted, true, false, ℕ, ◌≡◌, Bool, not, ◌&&◌, String, Option, none, some, List, [], ◌∷◌, ◌++◌,
  if◌then◌else◌, find, any, filter, update,
}
use hub_meta_conversion_serv.Models.{Uuid, Bytes}
use hub_meta_conversion_serv.Meta.Schemas.{Decimal}
use hub_meta_conversion_serv.Schemas.{ConversionTagCreate, ConversionTagOut}
use hub_meta_conversion_serv.Meta.Adapter.{MetaAdapter}
use hub_meta_conversion_serv.Security.{Crypto}

-- SQLAlchemy over Postgres, on the rows that a transaction sees: `session.scalar` and
-- `session.get`, `session.scalars` with an `order_by`, `flush` of an added row, and `flush` of
-- changed attributes. `numeric precision scale` is what a column of that type keeps of a number: it
-- rounds to `scale` places. An insert is refused if the rows that the new row refers to are missing, or
-- if a unique constraint is violated.
pub record Sql : Type 1 where
  pub scalar : (A : Type 0) → (A → Bool) → List A → Option A
  pub scalars : (A : Type 0) → (A → Bool) → (A → A → Bool) → List A → List A
  pub insert : (A : Type 0) → Bool → (A → A → Bool) → A → List A → Option (List A)
  pub numeric : ℕ → ℕ → Decimal → Decimal
  pub change : (A : Type 0) → (A → Bool) → (A → A) → List A → List A
  pub scalar_finds : (A : Type 0) (p : A → Bool) (l : List A) → scalar A p l ≡ find p l
  pub scalars_selects :
      (A : Type 0) (p : A → Bool) (before : A → A → Bool) (l : List A)
      → Perm (scalars A p before l) (filter p l)
  pub scalars_ordered :
      (A : Type 0) (p : A → Bool) (before : A → A → Bool) (l : List A)
      → ((x y : A) → before x y ≡ false → before y x ≡ true)
      → ((x y z : A) → before x y ≡ true → before y z ≡ true → before x z ≡ true)
      → IsSorted before (scalars A p before l)
  pub insert_checks :
      (A : Type 0) (refers : Bool) (clash : A → A → Bool) (r : A) (l : List A)
      → insert A refers clash r l
        ≡ (if refers && not (any (clash r) l) then some (l ++ r ∷ []) else none)
  pub change_updates :
      (A : Type 0) (p : A → Bool) (f : A → A) (l : List A) → change A p f l ≡ update p f l

-- `Remote` is the state of Meta and of the adapter, `Json` the JSON documents.
pub record Env : Type 1 where
  pub Remote : Type 0
  pub Json : Type 0
  pub sql : Sql
  pub adapter : MetaAdapter Remote
  pub crypto : Crypto
  -- The hexadecimal digest of SHA-256.
  pub sha256_hex : Bytes → String
  -- `json.dumps(…, sort_keys=True, separators=(",", ":"), default=str)`
  pub json_dumps : Json → String
  -- `{"advertiser_id": str(…), **payload.model_dump(mode="json")}`
  pub dump_request : Uuid → ConversionTagCreate → Json
  -- `out.model_dump(mode="json")`, and `ConversionTagOut.model_validate`, which reads it back; `none`
  -- is a `ValidationError`.
  pub dump_out : ConversionTagOut → Json
  pub validate_out : Json → Option ConversionTagOut
  pub validate-dump : (out : ConversionTagOut) → validate_out (dump_out out) ≡ some out
  -- The order of names in the database's collation.
  pub name_before : String → String → Bool
  -- `abs(hash(s))`
  pub abs_hash : String → ℕ
