-- ===== src/Requests/Alone.antt =====
-- Requests one after the other, with no commit of anyone else due.
use hub_meta_conversion_serv.Base.{ℕ, Bool, ◌≡◌, []}
use hub_meta_conversion_serv.Models.{Uuid}
use hub_meta_conversion_serv.Models.Tables
use hub_meta_conversion_serv.Models.Tables.{Table}
use hub_meta_conversion_serv.Exec.Keeps.{Keeps}
use hub_meta_conversion_serv.Env.{Env}
use hub_meta_conversion_serv.Session.{
  World, interfere, flush_add, flush_set, call_meta, roll_back, rollback,
}
use hub_meta_conversion_serv.Session.Inserts.{interfere-none}
use hub_meta_conversion_serv.Session.Rules.{
  Stable, TagSteps, RecordSteps, flush_add-Keeps, now-Keeps,
}

abbrev pub Alone : {R J : Type 0} → World R J → Type 0
Alone w = w.arrivals ≡ []

interfere-Alone : {R J : Type 0} (w : World R J) → Alone w → Alone (interfere w)
interfere-Alone w e = rw (interfere-none w e) e

module _ (env : Env) where
  add-Alone :
      {A : Type 0} (t : Table env.Json A) (make : Uuid → ℕ → A) → Keeps Alone (flush_add env t make)
  add-Alone t make = flush_add-Keeps env t Alone make interfere-Alone (λ w row rows h e. h)

  set-Alone :
      {A : Type 0} (t : Table env.Json A) (p : A → Bool) (f : ℕ → A → A)
      → Keeps Alone (flush_set env t p f)
  unfolding flush_set
  set-Alone t p f = record { at = λ w h. h }

  pub Alone-Stable : Stable env Alone
  unfolding call_meta roll_back rollback
  Alone-Stable = record {
    now_keeps = now-Keeps env Alone (λ w c l h. h);
    add_advertiser = add-Alone Tables.advertisers;
    add_pixel = add-Alone Tables.pixels;
    add_token = add-Alone Tables.oauth_tokens;
    set_pixel = set-Alone Tables.pixels;
    set_token = set-Alone Tables.oauth_tokens;
    meta_keeps = λ A m. record { at = λ w h. h };
    roll_back_keeps = record { at = λ w h. h };
  }

  pub Alone-TagSteps : TagSteps env Alone
  Alone-TagSteps = record {
    add_tag = add-Alone Tables.conversion_tags;
    set_tag = set-Alone Tables.conversion_tags;
  }

  pub Alone-RecordSteps : RecordSteps env Alone
  Alone-RecordSteps = record { add_record = add-Alone Tables.idempotency_records }
