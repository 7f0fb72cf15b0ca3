-- ===== src/Requests/Persistence.antt =====
-- The rows of `idempotency_records` over a run of requests (app/repositories/idempotency.py).
use hub_meta_conversion_serv.Base.{
  ℕ, Bool, ◌≡◌, refl, sym, subst, ◌∙◌, Option, none, some, List, [], ◌∷◌, ◌++◌, String, ◌&&◌,
  str_eq, find, find-snoc_some, All, arith, if◌then◌else◌,
}
use hub_meta_conversion_serv.Models.{Uuid, Db, IdempotencyRecord}
use hub_meta_conversion_serv.Models.Tables
use hub_meta_conversion_serv.Models.Tables.{Table}
use hub_meta_conversion_serv.Exec.Keeps.{Keeps}
use hub_meta_conversion_serv.Security.{TokenCipher}
use hub_meta_conversion_serv.Env.{Env}
use hub_meta_conversion_serv.Session.{
  World, begin, commit, rollback, arrive, interfere, flush_add, flush_set, call_meta, roll_back,
}
use hub_meta_conversion_serv.Session.Rules.{
  Stable, TagSteps, RecordSteps, flush_add-Keeps, now-Keeps,
}
use hub_meta_conversion_serv.Requests.{Request, Outcome, returned, raised, serve, serve_all}
use hub_meta_conversion_serv.Requests.Stability.{Ended, serve-Ended}

-- The record of an endpoint and a key.
abbrev pub record_at : {J : Type 0} → String → String → Db J → Option (IdempotencyRecord J)
record_at endpoint key db =
    find (λ r. str_eq r.endpoint endpoint && str_eq r.key key) db.idempotency_records

-- No commit of another request that is still due changes the answer for the key.
abbrev pub ArrivalsKeep :
    {J : Type 0} → String → String → Option (IdempotencyRecord J) → List (Db J → Db J) → Type 0
ArrivalsKeep {J} endpoint key o =
    All (λ f. (db : Db J) → record_at endpoint key db ≡ o → record_at endpoint key (f db) ≡ o)

module _ {R J : Type 0} (endpoint key : String) (o : Option (IdempotencyRecord J)) where
  pub record HasRecord (w : World R J) : Type 0 where
    pub in_committed : record_at endpoint key w.committed ≡ o
    pub in_working : record_at endpoint key w.working ≡ o
    pub in_arrivals : ArrivalsKeep endpoint key o w.arrivals

  arrive-HasRecord :
      (l : List (Db J → Db J)) (w : World R J)
      → ArrivalsKeep endpoint key o l
      → HasRecord w
      → HasRecord (arrive l w)
  unfolding arrive
  arrive-HasRecord [] w k h = h
  arrive-HasRecord (f ∷ rest) w k h = record {
    in_committed = k.0 w.committed h.in_committed;
    in_working = k.0 w.working h.in_working;
    in_arrivals = k.1;
  }

  interfere-HasRecord : (w : World R J) → HasRecord w → HasRecord (interfere w)
  unfolding interfere
  interfere-HasRecord w h = arrive-HasRecord w.arrivals w h.in_arrivals h

module _ (env : Env) (endpoint key : String) (o : Option (IdempotencyRecord env.Json)) where
  abbrev P : World env.Remote env.Json → Type 0
  P = HasRecord endpoint key o

  -- A write of another table.
  add-HasRecord :
      {A : Type 0} (t : Table env.Json A) (make : Uuid → ℕ → A)
      → ((rows : List A) (db : Db env.Json)
          → (t.store rows db).idempotency_records ≡ db.idempotency_records)
      → Keeps P (flush_add env t make)
  add-HasRecord t make frame =
      flush_add-Keeps env t P make (interfere-HasRecord endpoint key o) (λ w row rows h e. record {
        in_committed = h.in_committed;
        in_working = rw (frame rows w.working) h.in_working;
        in_arrivals = h.in_arrivals;
      })

  set-HasRecord :
      {A : Type 0} (t : Table env.Json A) (p : A → Bool) (f : ℕ → A → A)
      → ((rows : List A) (db : Db env.Json)
          → (t.store rows db).idempotency_records ≡ db.idempotency_records)
      → Keeps P (flush_set env t p f)
  unfolding flush_set
  set-HasRecord t p f frame = record {
    at = λ w h. record {
      in_committed = h.in_committed;
      in_working = rw (frame _ w.working) h.in_working;
      in_arrivals = h.in_arrivals;
    };
  }

  pub HasRecord-Stable : Stable env P
  unfolding call_meta roll_back rollback
  HasRecord-Stable = record {
    now_keeps = now-Keeps env P (λ w c l h. record {
      in_committed = h.in_committed;
      in_working = h.in_working;
      in_arrivals = h.in_arrivals;
    });
    add_advertiser = λ make. add-HasRecord Tables.advertisers make (λ rows db. refl);
    add_pixel = λ make. add-HasRecord Tables.pixels make (λ rows db. refl);
    add_token = λ make. add-HasRecord Tables.oauth_tokens make (λ rows db. refl);
    set_pixel = λ p f. set-HasRecord Tables.pixels p f (λ rows db. refl);
    set_token = λ p f. set-HasRecord Tables.oauth_tokens p f (λ rows db. refl);
    meta_keeps = λ A m. record {
      at = λ w h. record {
        in_committed = h.in_committed;
        in_working = h.in_working;
        in_arrivals = h.in_arrivals;
      };
    };
    roll_back_keeps = record {
      at = λ w h. record {
        in_committed = h.in_committed;
        in_working = h.in_committed;
        in_arrivals = h.in_arrivals;
      };
    };
  }

  pub HasRecord-TagSteps : TagSteps env P
  HasRecord-TagSteps = record {
    add_tag = λ make. add-HasRecord Tables.conversion_tags make (λ rows db. refl);
    set_tag = λ p f. set-HasRecord Tables.conversion_tags p f (λ rows db. refl);
  }

module _ (env : Env) (endpoint key : String) (r : IdempotencyRecord env.Json) where
  abbrev Has : World env.Remote env.Json → Type 0
  Has = HasRecord endpoint key (some r)

  -- A new record stands behind the old ones.
  insert-HasRecord :
      (l rows : List (IdempotencyRecord env.Json)) (row : IdempotencyRecord env.Json) (b : Bool)
      → find (λ x. str_eq x.endpoint endpoint && str_eq x.key key) l ≡ some r
      → (if b then some (l ++ row ∷ []) else none) ≡ some rows
      → find (λ x. str_eq x.endpoint endpoint && str_eq x.key key) rows ≡ some r
  insert-HasRecord l rows row b h e =
      ground (arith, find-snoc_some (λ x. str_eq x.endpoint endpoint && str_eq x.key key) l row r h)

  HasRecord-RecordSteps : RecordSteps env Has
  HasRecord-RecordSteps = record {
    add_record = λ make.
        flush_add-Keeps env Tables.idempotency_records Has make
          (interfere-HasRecord endpoint key (some r))
          (λ w row rows h e. record {
            in_committed = h.in_committed;
            in_working =
                insert-HasRecord w.working.idempotency_records rows row _ h.in_working
                  (sym (env.sql.insert_checks _ _ _ _ _) ∙ e);
            in_arrivals = h.in_arrivals;
          });
  }

  -- The part of the property that outlives a session.
  abbrev Kept : World env.Remote env.Json → Type 0
  Kept w =
      (record_at endpoint key w.committed ≡ some r) × ArrivalsKeep endpoint key (some r) w.arrivals

  Ended-Kept : (o : Outcome × World env.Remote env.Json) → Ended Has o → Kept o.1
  unfolding commit rollback
  Ended-Kept (returned, w') (v, h, s) = subst Kept (sym s) (h.in_working, h.in_arrivals)
  Ended-Kept (raised e, w') (v, h, s) = subst Kept (sym s) (h.in_committed, h.in_arrivals)

  serve-Kept :
      (c : TokenCipher) (q : Request) (w : World env.Remote env.Json)
      → Kept w
      → Kept (serve env c q w).1
  unfolding begin
  serve-Kept c q w k = Ended-Kept (serve env c q w) (
      serve-Ended env Has c q w (HasRecord-Stable env endpoint key (some r))
        (HasRecord-TagSteps env endpoint key (some r)) HasRecord-RecordSteps
        (record { in_committed = k.0; in_working = k.0; in_arrivals = k.1 }))

  serve_all-Kept :
      (c : TokenCipher) (qs : List Request) (w : World env.Remote env.Json)
      → Kept w
      → Kept (serve_all env c qs w)
  unfolding serve_all
  serve_all-Kept c [] w k = k
  serve_all-Kept c (q ∷ qs) w k = serve_all-Kept c qs (serve env c q w).1 (serve-Kept c q w k)

-- A committed idempotency record is found again unchanged after any requests, whether they succeed
-- or fail, if no commit from elsewhere removes or changes it.
pub records_persist :
    (env : Env) (endpoint key : String) (r : IdempotencyRecord env.Json) (c : TokenCipher)
    (requests : List Request) (w : World env.Remote env.Json)
    → record_at endpoint key w.committed ≡ some r
    → ArrivalsKeep endpoint key (some r) w.arrivals
    → record_at endpoint key (serve_all env c requests w).committed ≡ some r
records_persist env endpoint key r c requests w h k =
    (serve_all-Kept env endpoint key r c requests w (h, k)).0
