-- ===== src/ConversionTags/Settled.antt =====
-- The state of the rows of `conversion_tags` under `create` of
-- app/services/conversion_tag_service.py.
use hub_meta_conversion_serv.Base.{
  ℕ, Bool, ◌≡◌, refl, sym, subst, Option, none, some, List, [], ◌∷◌, String, ◌⊎◌, inl, inr, arith,
  All, All-map,
}
use hub_meta_conversion_serv.Exec.Keeps.{Keeps}
use hub_meta_conversion_serv.Models.{Uuid, Db, ConversionTag, active}
use hub_meta_conversion_serv.Models.Tables
use hub_meta_conversion_serv.Models.Tables.{Table}
use hub_meta_conversion_serv.Env.{Env}
use hub_meta_conversion_serv.Session.{
  World, arrive, interfere, flush_add, flush_set, call_meta, roll_back, rollback,
}
use hub_meta_conversion_serv.Session.Rules.{
  Stable, TagSteps, RecordSteps, flush_add-Keeps, now-Keeps,
}

-- The tag has reached Meta: it is active, with the id of its custom conversion and the request
-- that made it.
pub record IsDone (t : ConversionTag) : Type 0 where
  pub is_active : t.status ≡ active
  pub conversion_id : (x : String) × (t.meta_custom_conversion_id ≡ some x)

-- Done, or the one tag that the request at hand is working on.
abbrev pub Settled : Option Uuid → ConversionTag → Type 0
Settled o t = IsDone t ⊎ (o ≡ some t.id)

abbrev pub AllSettled : {J : Type 0} → Option Uuid → Db J → Type 0
AllSettled o db = All (Settled o) db.conversion_tags

-- What other requests commit leaves the tags settled.
abbrev pub ArrivalsSettle : {J : Type 0} → List (Db J → Db J) → Type 0
ArrivalsSettle {J} =
    All (λ f. (o : Option Uuid) (db : Db J) → AllSettled o db → AllSettled o (f db))

-- What outlives a session, and what holds within one.
pub record Between {R J : Type 0} (w : World R J) : Type 0 where
  pub committed_done : AllSettled none w.committed
  pub arrivals_settle : ArrivalsSettle w.arrivals

pub record Within {R J : Type 0} (o : Option Uuid) (w : World R J) : Type 0 where
  pub between : Between w
  pub working_settled : AllSettled o w.working

pub weaken : (o : Option Uuid) (l : List ConversionTag) → All (Settled none) l → All (Settled o) l
weaken o l h = All-map (λ t s. one t s) l h
  where
    one : (t : ConversionTag) → Settled none t → Settled o t
    one t (inl d) = inl d
    one t (inr e) = ground arith

module _ {R J : Type 0} where
  arrive-Within :
      (o : Option Uuid) (l : List (Db J → Db J)) (w : World R J)
      → ArrivalsSettle l
      → Within o w
      → Within o (arrive l w)
  unfolding arrive
  arrive-Within o [] w k h = h
  arrive-Within o (f ∷ rest) w k h = record {
    between = record {
      committed_done = k.0 none w.committed h.between.committed_done;
      arrivals_settle = k.1;
    };
    working_settled = k.0 o w.working h.working_settled;
  }

  pub interfere-Within : (o : Option Uuid) (w : World R J) → Within o w → Within o (interfere w)
  unfolding interfere
  interfere-Within o w h = arrive-Within o w.arrivals w h.between.arrivals_settle h

  arrive-Between :
      (l : List (Db J → Db J)) (w : World R J) → ArrivalsSettle l → Between w → Between (arrive l w)
  unfolding arrive
  arrive-Between [] w k h = h
  arrive-Between (f ∷ rest) w k h = record {
    committed_done = k.0 none w.committed h.committed_done;
    arrivals_settle = k.1;
  }

  interfere-Between : (w : World R J) → Between w → Between (interfere w)
  unfolding interfere
  interfere-Between w h = arrive-Between w.arrivals w h.arrivals_settle h

module _ (env : Env) where
  add-Between :
      {A : Type 0} (t : Table env.Json A) (make : Uuid → ℕ → A)
      → Keeps Between (flush_add env t make)
  add-Between t make = flush_add-Keeps env t Between make interfere-Between (λ w row rows h e.
      record { committed_done = h.committed_done; arrivals_settle = h.arrivals_settle })

  set-Between :
      {A : Type 0} (t : Table env.Json A) (p : A → Bool) (f : ℕ → A → A)
      → Keeps Between (flush_set env t p f)
  unfolding flush_set
  set-Between t p f = record {
    at = λ w h. record { committed_done = h.committed_done; arrivals_settle = h.arrivals_settle };
  }

  pub Between-Stable : Stable env Between
  unfolding call_meta roll_back rollback
  Between-Stable = record {
    now_keeps = now-Keeps env Between (λ w c l h. record {
      committed_done = h.committed_done;
      arrivals_settle = h.arrivals_settle;
    });
    add_advertiser = add-Between Tables.advertisers;
    add_pixel = add-Between Tables.pixels;
    add_token = add-Between Tables.oauth_tokens;
    set_pixel = set-Between Tables.pixels;
    set_token = set-Between Tables.oauth_tokens;
    meta_keeps = λ A m. record {
      at = λ w h. record { committed_done = h.committed_done; arrivals_settle = h.arrivals_settle };
    };
    roll_back_keeps = record {
      at = λ w h. record { committed_done = h.committed_done; arrivals_settle = h.arrivals_settle };
    };
  }

  pub Between-TagSteps : TagSteps env Between
  Between-TagSteps = record {
    add_tag = add-Between Tables.conversion_tags;
    set_tag = set-Between Tables.conversion_tags;
  }

  pub Between-RecordSteps : RecordSteps env Between
  Between-RecordSteps = record { add_record = add-Between Tables.idempotency_records }

module _ (env : Env) (o : Option Uuid) where
  abbrev In : World env.Remote env.Json → Type 0
  In = Within o

  -- A write of another table.
  add-Within :
      {A : Type 0} (t : Table env.Json A) (make : Uuid → ℕ → A)
      → ((rows : List A) (db : Db env.Json)
          → (t.store rows db).conversion_tags ≡ db.conversion_tags)
      → Keeps In (flush_add env t make)
  add-Within t make frame = flush_add-Keeps env t In make (interfere-Within o) (λ w row rows h e.
      record {
        between = record {
          committed_done = h.between.committed_done;
          arrivals_settle = h.between.arrivals_settle;
        };
        working_settled = subst (All (Settled o)) (sym (frame rows w.working)) h.working_settled;
      })

  set-Within :
      {A : Type 0} (t : Table env.Json A) (p : A → Bool) (f : ℕ → A → A)
      → ((rows : List A) (db : Db env.Json)
          → (t.store rows db).conversion_tags ≡ db.conversion_tags)
      → Keeps In (flush_set env t p f)
  unfolding flush_set
  set-Within t p f frame = record {
    at = λ w h. record {
      between = record {
        committed_done = h.between.committed_done;
        arrivals_settle = h.between.arrivals_settle;
      };
      working_settled = subst (All (Settled o)) (sym (frame _ w.working)) h.working_settled;
    };
  }

  pub Within-Stable : Stable env In
  unfolding call_meta roll_back rollback
  Within-Stable = record {
    now_keeps = now-Keeps env In (λ w c l h. record {
      between = record {
        committed_done = h.between.committed_done;
        arrivals_settle = h.between.arrivals_settle;
      };
      working_settled = h.working_settled;
    });
    add_advertiser = λ make. add-Within Tables.advertisers make (λ rows db. refl);
    add_pixel = λ make. add-Within Tables.pixels make (λ rows db. refl);
    add_token = λ make. add-Within Tables.oauth_tokens make (λ rows db. refl);
    set_pixel = λ p f. set-Within Tables.pixels p f (λ rows db. refl);
    set_token = λ p f. set-Within Tables.oauth_tokens p f (λ rows db. refl);
    meta_keeps = λ A m. record {
      at = λ w h. record {
        between = record {
          committed_done = h.between.committed_done;
          arrivals_settle = h.between.arrivals_settle;
        };
        working_settled = h.working_settled;
      };
    };
    roll_back_keeps = record {
      at = λ w h. record {
        between = record {
          committed_done = h.between.committed_done;
          arrivals_settle = h.between.arrivals_settle;
        };
        working_settled = weaken o w.committed.conversion_tags h.between.committed_done;
      };
    };
  }

  pub Within-RecordSteps : RecordSteps env In
  Within-RecordSteps = record {
    add_record = λ make. add-Within Tables.idempotency_records make (λ rows db. refl);
  }
