-- ===== src/ConversionTags/Completion.antt =====
-- What has become of the tags where `create` of app/services/conversion_tag_service.py returns.
use hub_meta_conversion_serv.Base.{
  ℕ, Bool, true, false, ◌≡◌, refl, sym, subst, subst₂, ◌∙◌, Option, none, some, List, [], ◌∷◌, ◌++◌,
  String, ◌==◌, ◌&&◌, str_eq, inl, inr, arith, All, All-snoc, All-find, All-update_where, update,
  if◌then◌else◌,
}
use hub_meta_conversion_serv.Exec.{ok, ◌>>=◌, raise, pure}
use hub_meta_conversion_serv.Exec.Keeps.{Keeps-gets, Keeps-or_raise}
use hub_meta_conversion_serv.Exec.Returns.{
  Returns, Raises, Returns_of_Keeps, Returns-strengthen, Returns-pure, Returns-catch, Returns-bind,
}
use hub_meta_conversion_serv.Models.{Uuid, Pixel, ConversionTag, active, pending, failed, TagStatus}
use hub_meta_conversion_serv.Models.Tables
use hub_meta_conversion_serv.Meta.Schemas.{CustomConversionCreateInput}
use hub_meta_conversion_serv.Meta.Adapter.{meta}
use hub_meta_conversion_serv.Schemas.{ConversionTagCreate}
use hub_meta_conversion_serv.Errors.{Exc, adapter_error}
use hub_meta_conversion_serv.Security.{TokenCipher}
use hub_meta_conversion_serv.Env.{Env}
use hub_meta_conversion_serv.Session.{World, scalar, flush_set, roll_back}
use hub_meta_conversion_serv.Session.Rules.{Keeps-scalar, token_steps, flush_add-returns}
use hub_meta_conversion_serv.OAuth.{meta_provider}
use hub_meta_conversion_serv.Repositories.Advertiser as Advertisers
use hub_meta_conversion_serv.Repositories.ConversionTag as Tags
use hub_meta_conversion_serv.ConversionTags.{
  pending_tag, meta_input, marked_active, on_meta_error, submit, on_insert_error, create_or_resume,
  create,
}
use hub_meta_conversion_serv.ConversionTags.Settled.{
  IsDone, Settled, Within, interfere-Within, weaken, Within-Stable,
}
use hub_meta_conversion_serv.Requests.Keeps.{get_access_token-Keeps}

pub inserted :
    {A : Type 0} (b : Bool) (l rows : List A)
    → ◌≡◌ {A = Option (List A)} (if b then some l else none) (some rows)
    → l ≡ rows
inserted true l rows e = ground arith
inserted false l rows e = ground arith

-- What `create` has done where it returns.
abbrev pub Completed : {R J : Type 0} → ConversionTag → World R J → Type 0
Completed tag w = Within none w × IsDone tag

module _ (env : Env) where
  new_tag-Returns :
      (make : Uuid → ℕ → ConversionTag)
      → Returns (Within none) (Tags.create env make) (λ tag. Within (some tag.id))
  unfolding Tags.create
  new_tag-Returns make =
      flush_add-returns env Tables.conversion_tags (Within none) (λ tag. Within (some tag.id)) make
        (interfere-Within none)
        (λ w rows h e.
          let row = make w.next_id w.started in
          record {
            between = record {
              committed_done = h.between.committed_done;
              arrivals_settle = h.between.arrivals_settle;
            };
            working_settled =
                subst (All (Settled (some row.id)))
                  (inserted _
                    (w.working.conversion_tags ++ Tables.held_tag env.sql.numeric row ∷ []) rows
                    (sym (env.sql.insert_checks _ _ _ _ _) ∙ e))
                  (All-snoc (Settled (some row.id)) w.working.conversion_tags
                    (Tables.held_tag env.sql.numeric row)
                    (weaken (some row.id) w.working.conversion_tags h.working_settled) (inr refl));
          })

  settle :
      (i : Uuid) (x : String) (input : CustomConversionCreateInput) (n : ℕ) (l : List ConversionTag)
      → All (Settled (some i)) l
      → All (Settled none) (update (λ r. r.id == i) (marked_active x input n) l)
  settle i x input n =
      All-update_where (λ r. r.id == i) (marked_active x input n)
        (λ t s e. inl (record { is_active = refl; conversion_id = (x, refl) }))
        (λ t s e. kept t s e)
    where
      kept : (t : ConversionTag) → Settled (some i) t → (t.id == i) ≡ false → Settled none t
      kept t (inl d) e = inl d
      kept t (inr p) e = ground arith

  mark-Returns :
      (i : Uuid) (x : String) (input : CustomConversionCreateInput)
      → Returns
          (Within (some i))
          (flush_set env Tables.conversion_tags (λ r. r.id == i) (marked_active x input))
          (λ u. Within none)
  unfolding flush_set
  mark-Returns i x input = record {
    at = λ w h u w' e.
        subst (λ r. Within none r.1) e
          (record {
            between = record {
              committed_done = h.between.committed_done;
              arrivals_settle = h.between.arrivals_settle;
            };
            working_settled =
                subst (All (Settled none)) (sym (env.sql.change_updates _ _ _ _))
                  (settle i x input w.started w.working.conversion_tags h.working_settled);
          });
  }

  pub on_meta_error-Raises :
      (t : ConversionTag) (i : CustomConversionCreateInput) (e : Exc)
      → Raises (on_meta_error env t i e)
  unfolding on_meta_error flush_set ◌>>=◌ raise
  on_meta_error-Raises t i (adapter_error (meta e)) = λ s. (_, refl)
  on_meta_error-Raises t i _ = λ s. (_, refl)

  pub on_insert_error-Raises : (n : String) (e : Exc) → Raises (on_insert_error env n e)
  unfolding on_insert_error roll_back ◌>>=◌ raise
  on_insert_error-Raises n e = λ s. (_, refl)

  submit-Returns :
      (c : TokenCipher) (a : Uuid) (k : String) (p : Pixel) (d : ConversionTagCreate)
      (t : ConversionTag)
      → Returns (Within (some t.id)) (submit env c a k p d t) Completed
  unfolding submit
  submit-Returns c a k p d t =
      let st = Within-Stable env (some t.id) in
      Returns-bind _ _ (λ x. Within (some t.id)) Completed
        (Returns_of_Keeps _ (get_access_token-Keeps (token_steps st) c a meta_provider))
        (λ token.
          Returns-bind _ _ (λ x. Within (some t.id)) Completed
            (Returns-catch _ _ _ (Returns_of_Keeps _ (st.meta_keeps _ _))
              (on_meta_error-Raises t (meta_input p d)))
            (λ created.
              Returns-bind _ _ (λ x. Within none) Completed
                (mark-Returns t.id created.id (meta_input p d))
                (λ u.
                  Returns-bind _ _ (λ x. Within none) Completed (Returns_of_Keeps _ (Keeps-gets _))
                    (λ written. Returns-pure _ Completed (λ s h.
                      (h, record { is_active = refl; conversion_id = (created.id, refl) }))))))

  -- The lookup by name finds only tags that are done.
  abbrev FoundDone : Option ConversionTag → World env.Remote env.Json → Type 0
  FoundDone o w = Within none w × ((t : ConversionTag) → o ≡ some t → IsDone t)

  lookup-Returns :
      (a : Uuid) (name : String)
      → Returns (Within none) (Tags.get_by_advertiser_and_name env a name) FoundDone
  unfolding Tags.get_by_advertiser_and_name scalar
  lookup-Returns a name = record {
    at = λ w h o w' e.
        let p : Path (World env.Remote env.Json) w w' = ground arith in
        subst (FoundDone o) p (
          h,
          λ t q. done t (
              All-find (Settled none) (λ r. r.advertiser_id == a && str_eq r.name name)
                w.working.conversion_tags t h.working_settled
                (sym (
                    env.sql.scalar_finds _ (λ r. r.advertiser_id == a && str_eq r.name name)
                      w.working.conversion_tags)
                  ∙ ground arith)),
        );
  }
    where
      done : (t : ConversionTag) → Settled none t → IsDone t
      done t (inl d) = d
      done t (inr e) = ground arith

  pub resume-active :
      (c : TokenCipher) (a : Uuid) (k : String) (p : Pixel) (d : ConversionTagCreate)
      (t : ConversionTag) (w : World env.Remote env.Json)
      → t.status ≡ active
      → create_or_resume env c a k p d (some t) w ≡ (ok t, w)
  unfolding create_or_resume pure
  resume-active c a k p d t w e = ground arith

  resume-Returns :
      (c : TokenCipher) (a : Uuid) (k : String) (p : Pixel) (d : ConversionTagCreate)
      (o : Option ConversionTag)
      → Returns (FoundDone o) (create_or_resume env c a k p d o) Completed
  unfolding create_or_resume
  resume-Returns c a k p d none =
      Returns-bind _ _ (λ tag. Within (some tag.id)) Completed
        (Returns-catch _ _ _
          (Returns-strengthen _ _ (λ w h. h.0) (new_tag-Returns (pending_tag a p.id d)))
          (on_insert_error-Raises d.name))
        (λ tag. submit-Returns c a k p d tag)
  resume-Returns c a k p d (some t) = record {
    at = λ w h tag w' e. finished w (h.1 t refl) t.status refl h.0 tag w' e;
  }
    where
      finished :
          (w : World env.Remote env.Json)
          → IsDone t
          → (s : TagStatus) → t.status ≡ s
          → Within none w
          → (tag : ConversionTag) (w' : World env.Remote env.Json)
          → create_or_resume env c a k p d (some t) w ≡ (ok tag, w')
          → Completed tag w'
      finished w done pending q h tag w' e = ground arith
      finished w done failed q h tag w' e = ground arith
      finished w done active q h tag w' e =
          let r = sym (resume-active c a k p d t w q) ∙ e in
          let x : Path ConversionTag t tag = ground arith in
          let y : Path (World env.Remote env.Json) w w' = ground arith in
          subst₂ Completed x y (h, done)

  -- Where `create` returns, the tag has the status ACTIVE and the id that Meta gave it, and no other
  -- tag that the transaction sees is unfinished.
  pub create-Returns :
      (c : TokenCipher) (a : Uuid) (d : ConversionTagCreate)
      → Returns (Within none) (create env c a d) Completed
  unfolding create Advertisers.get
  create-Returns c a d =
      Returns-bind _ _ (λ x. Within none) Completed (Returns_of_Keeps _ (Keeps-scalar env _ _))
        (λ found.
          Returns-bind _ _ (λ x. Within none) Completed (Returns_of_Keeps _ (Keeps-or_raise _ _))
            (λ advertiser.
              Returns-bind _ _ (λ x. Within none) Completed
                (Returns_of_Keeps _ (Keeps-or_raise _ _))
                (λ account.
                  Returns-bind _ _ (λ x. Within none) Completed
                    (Returns_of_Keeps _ (Keeps-scalar env _ _))
                    (λ row.
                      Returns-bind _ _ (λ x. Within none) Completed
                        (Returns_of_Keeps _ (Keeps-or_raise _ _))
                        (λ pixel.
                          Returns-bind _ _ FoundDone Completed (lookup-Returns a d.name)
                            (λ existing. resume-Returns c a account pixel d existing))))))
