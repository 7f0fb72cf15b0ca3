-- ===== src/Session.antt =====
-- The per-request database session (app/db/session.py) over the engine of `Env`.
pub mod Rules
pub mod Inserts
pub mod Clock
use mathlib.Core.List.{Perm}
use hub_meta_conversion_serv.Base.{
  ℕ, suc, ◌+◌, ◌≡◌, Bool, not, ◌&&◌, Option, none, some, List, [], ◌∷◌, ◌++◌, if◌then◌else◌, find,
  any, filter, update,
}
use hub_meta_conversion_serv.Exec.{Result, ok, err, Exec}
use hub_meta_conversion_serv.Models.{Uuid, Db}
use hub_meta_conversion_serv.Models.Tables.{Table}
use hub_meta_conversion_serv.Env.{Env}
use hub_meta_conversion_serv.Errors.{Exc, integrity_error, adapter_error}
use hub_meta_conversion_serv.Meta.Adapter.{MetaAdapter, Raised}

-- `working` is what this transaction sees, `committed` what a new one would see. `arrivals` are
-- the commits of other requests that become visible at the next inserts, `ticks` the time that
-- passes before each reading of the clock, `started` the transaction's `now()`.
pub record World (R J : Type 0) : Type 0 where
  pub committed : Db J
  pub working : Db J
  pub arrivals : List (Db J → Db J)
  pub clock : ℕ
  pub ticks : List ℕ
  pub started : ℕ
  pub next_id : Uuid
  pub remote : R

module _ {R J : Type 0} where
  unfoldable pub begin : World R J → World R J
  begin w = record w { working = w.committed; started = w.clock }

  unfoldable pub commit : World R J → World R J
  commit w = record w { committed = w.working }

  unfoldable pub rollback : World R J → World R J
  rollback w = record w { working = w.committed; started = w.clock }

  unfoldable pub arrive : List (Db J → Db J) → World R J → World R J
  arrive [] w = w
  arrive (f ∷ rest) w = record w {
    committed = f w.committed;
    working = f w.working;
    arrivals = rest;
  }

  -- Another request's commit, if one is due.
  unfoldable pub interfere : World R J → World R J
  unfolding arrive
  interfere w = arrive w.arrivals w

abbrev pub App : Env → Type 0 → Type 0
App env A = Exec (World env.Remote env.Json) Exc A

module _ (env : Env) where
  unfoldable pub tick :
      List ℕ → World env.Remote env.Json → Result Exc ℕ × World env.Remote env.Json
  tick [] w = (ok w.clock, w)
  tick (t ∷ rest) w = (ok (w.clock + t), record w { clock = w.clock + t; ticks = rest })

  -- `datetime.now(timezone.utc)`, in microseconds.
  unfoldable pub now : App env ℕ
  unfolding tick
  now w = tick w.ticks w

  -- `session.scalar(select(A).where(p))`, `session.get(A, key)`
  unfoldable pub scalar : {A : Type 0} → Table env.Json A → (A → Bool) → App env (Option A)
  scalar {A} t p w = (ok (env.sql.scalar A p (t.rows w.working)), w)

  -- `list(session.scalars(select(A).where(p).order_by(…)))`
  unfoldable pub scalars :
      {A : Type 0} → Table env.Json A → (A → Bool) → (A → A → Bool) → App env (List A)
  scalars {A} t p before w = (ok (env.sql.scalars A p before (t.rows w.working)), w)

  unfoldable pub keep_rows :
      {A : Type 0}
      → Table env.Json A
      → A
      → World env.Remote env.Json
      → Option (List A)
      → Result Exc A × World env.Remote env.Json
  keep_rows t row w none = (err integrity_error, w)
  keep_rows t row w (some rows) =
      (ok row, record w { working = t.store rows w.working; next_id = suc w.next_id })

  unfoldable pub insert_row : {A : Type 0} → Table env.Json A → A → App env A
  unfolding keep_rows
  insert_row {A} t row w = keep_rows t row w (
      env.sql.insert A (t.refers w.working row) t.clash (t.held env.sql.numeric row)
        (t.rows w.working))

  -- `session.add(row); session.flush()`: the row is stored as its columns keep it, and the object
  -- stays as it was made. The defaults of the id and of the timestamps are set here.
  unfoldable pub flush_add : {A : Type 0} → Table env.Json A → (Uuid → ℕ → A) → App env A
  unfolding insert_row interfere
  flush_add t make w = let w' = interfere w in insert_row t (make w'.next_id w'.started) w'

  -- Assignments to the attributes of the rows that pass `p`, and `session.flush()`. The new values
  -- may use the transaction's time.
  unfoldable pub flush_set :
      {A : Type 0} → Table env.Json A → (A → Bool) → (ℕ → A → A) → App env Unit
  flush_set {A} t p f w = (
    ok tt,
    record w { working = t.store (env.sql.change A p (f w.started) (t.rows w.working)) w.working },
  )

  raise_adapter : {A : Type 0} → Result Raised A → Result Exc A
  raise_adapter (ok a) = ok a
  raise_adapter (err e) = err (adapter_error e)

  -- A call of Meta: what it changes there stays, whatever the transaction does.
  unfoldable pub call_meta : {A : Type 0} → Exec env.Remote Raised A → App env A
  unfolding raise_adapter
  call_meta m w = let (r, remote) = m w.remote in (raise_adapter r, record w { remote = remote })

  -- `session.rollback()`
  unfoldable pub roll_back : App env Unit
  unfolding rollback
  roll_back w = (ok tt, rollback w)

  -- The end of `get_session`: commit, or roll back and raise again.
  unfoldable pub close :
      {A : Type 0}
      → Result Exc A × World env.Remote env.Json
      → Result Exc A × World env.Remote env.Json
  close (ok a, w) = (ok a, commit w)
  close (err e, w) = (err e, rollback w)

  -- `get_session` around a request handler.
  unfoldable pub with_session : {A : Type 0} → App env A → App env A
  unfolding close
  with_session m w = close (m (begin w))
