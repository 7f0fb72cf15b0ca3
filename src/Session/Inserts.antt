-- ===== src/Session/Inserts.antt =====
-- What an insert does, on each answer of the engine (`session.add` and `flush`).
use hub_meta_conversion_serv.Base.{
  ℕ, ◌≡◌, ap, ◌∙◌, true, false, none, some, List, [], ◌∷◌, ◌++◌, String, str_eq, eq_iff, any, arith,
}
use hub_meta_conversion_serv.Exec.{ok, err}
use hub_meta_conversion_serv.Models.{Uuid, Db}
use hub_meta_conversion_serv.Models.Tables.{Table}
use hub_meta_conversion_serv.Errors.{integrity_error}
use hub_meta_conversion_serv.Env.{Env}
use hub_meta_conversion_serv.Session.{World, arrive, interfere, keep_rows, insert_row, flush_add}
use hub_meta_conversion_serv.Session.Rules.{with_rows}

pub str_eq_comm : (s t : String) → str_eq s t ≡ str_eq t s
str_eq_comm s t = ground (arith, eq_iff s t, eq_iff t s)

pub interfere-none : {R J : Type 0} (w : World R J) → w.arrivals ≡ [] → interfere w ≡ w
unfolding interfere arrive
interfere-none w e = ap (λ l. arrive l w) e

pub interfere-some :
    {R J : Type 0} (w : World R J) (f : Db J → Db J) (rest : List (Db J → Db J))
    → w.arrivals ≡ f ∷ rest
    → interfere w ≡ record w { committed = f w.committed; working = f w.working; arrivals = rest }
unfolding interfere arrive
interfere-some w f rest e = ap (λ l. arrive l w) e

module _ (env : Env) {A : Type 0} (t : Table env.Json A) (make : Uuid → ℕ → A)
    (w w' : World env.Remote env.Json) (due : interfere w ≡ w') where
  abbrev row : A
  row = make w'.next_id w'.started

  answer-new :
      t.refers w'.working row ≡ true
      → any (t.clash (t.held env.sql.numeric row)) (t.rows w'.working) ≡ false
      → env.sql.insert A
          (t.refers w'.working row)
          t.clash
          (t.held env.sql.numeric row)
          (t.rows w'.working)
        ≡ some (t.rows w'.working ++ t.held env.sql.numeric row ∷ [])
  answer-new refers free =
      env.sql.insert_checks A _ t.clash (t.held env.sql.numeric row) _ ∙ rw (refers, free)

  answer-clash :
      any (t.clash (t.held env.sql.numeric row)) (t.rows w'.working) ≡ true
      → env.sql.insert A
          (t.refers w'.working row)
          t.clash
          (t.held env.sql.numeric row)
          (t.rows w'.working)
        ≡ none
  answer-clash taken =
      env.sql.insert_checks A _ t.clash (t.held env.sql.numeric row) _ ∙ ground arith

  -- The row is stored if what it refers to is there and no row is in its way.
  pub flush_add-new :
      t.refers w'.working row ≡ true
      → any (t.clash (t.held env.sql.numeric row)) (t.rows w'.working) ≡ false
      → flush_add env t make w
        ≡ (ok row, with_rows t w' (t.rows w'.working ++ t.held env.sql.numeric row ∷ []))
  unfolding flush_add insert_row keep_rows
  flush_add-new refers free =
      ap (λ v. insert_row env t (make v.next_id v.started) v) due
      ∙ ap (keep_rows env t row w') (answer-new refers free)

  -- The insert raises if a row is in its way.
  pub flush_add-clash :
      any (t.clash (t.held env.sql.numeric row)) (t.rows w'.working) ≡ true
      → flush_add env t make w ≡ (err integrity_error, w')
  unfolding flush_add insert_row keep_rows
  flush_add-clash taken =
      ap (λ v. insert_row env t (make v.next_id v.started) v) due
      ∙ ap (keep_rows env t row w') (answer-clash taken)
