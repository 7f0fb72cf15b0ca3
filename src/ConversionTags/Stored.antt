-- ===== src/ConversionTags/Stored.antt =====
-- Where the tag is that `create` of app/services/conversion_tag_service.py returns.
use mathlib.Core.List.{Memᴰ}
use hub_meta_conversion_serv.Base.{
  ℕ, ◌⊎◌, inl, inr, last-Mem, rewritten-Mem, find-Mem, Bool, true, ◌≡◌, refl, sym, ap, subst,
  subst₂, ◌∙◌, Option, none, some, [], ◌∷◌, ◌++◌, String, ◌==◌, ==_iff, ◌&&◌, str_eq, eq_iff, arith,
  find, find-holds,
}
use hub_meta_conversion_serv.Exec.{◌>>=◌, pure, gets}
use hub_meta_conversion_serv.Exec.Keeps.{Keeps, Keeps-or_raise}
use hub_meta_conversion_serv.Exec.Returns.{
  Returns, Returns_of_Keeps, Returns-strengthen, Returns-catch, Returns-bind,
}
use hub_meta_conversion_serv.Models.{Uuid, Pixel, ConversionTag, active, pending, failed, TagStatus}
use hub_meta_conversion_serv.Models.Tables
use hub_meta_conversion_serv.Models.Tables.{held_tag}
use hub_meta_conversion_serv.Meta.Schemas.{Decimal, CustomConversionCreateInput}
use hub_meta_conversion_serv.Schemas.{ConversionTagCreate}
use hub_meta_conversion_serv.Errors.{Exc}
use hub_meta_conversion_serv.Security.{TokenCipher}
use hub_meta_conversion_serv.Env.{Env}
use hub_meta_conversion_serv.Session.{World, App, interfere, scalar, flush_set, call_meta}
use hub_meta_conversion_serv.Session.Rules.{
  TokenSteps, Keeps-scalar, flush_add-Keeps, flush_add-returns, now-Keeps,
}
use hub_meta_conversion_serv.Session.Inserts.{interfere-none}
use hub_meta_conversion_serv.OAuth.{meta_provider}
use hub_meta_conversion_serv.Requests.Alone.{Alone}
use hub_meta_conversion_serv.Requests.Keeps.{get_access_token-Keeps}
use hub_meta_conversion_serv.Repositories.Advertiser as Advertisers
use hub_meta_conversion_serv.Repositories.ConversionTag as Tags
use hub_meta_conversion_serv.ConversionTags.{
  pending_tag, meta_input, marked_active, submit, create_or_resume, create,
}
use hub_meta_conversion_serv.ConversionTags.Completion.{
  inserted, on_meta_error-Raises, on_insert_error-Raises, resume-active,
}

-- A row that holds the tag: it is the tag as it was read, or as its columns keep it.
abbrev pub Holds : (ℕ → ℕ → Decimal → Decimal) → ConversionTag → ConversionTag → Type 0
Holds numeric tag row = (row ≡ tag) ⊎ (row ≡ held_tag numeric tag)

Holds-id :
    (numeric : ℕ → ℕ → Decimal → Decimal) (tag row : ConversionTag)
    → Holds numeric tag row
    → row.id ≡ tag.id
Holds-id numeric tag row (inl e) = ap (λ t. t.id) e
Holds-id numeric tag row (inr e) = ap (λ t. t.id) e

Holds-marked :
    (numeric : ℕ → ℕ → Decimal → Decimal) (tag row : ConversionTag) (x : String)
    (input : CustomConversionCreateInput) (n : ℕ)
    → Holds numeric tag row
    → Holds numeric (marked_active x input n tag) (marked_active x input n row)
Holds-marked numeric tag row x input n (inl e) = inl (ap (marked_active x input n) e)
Holds-marked numeric tag row x input n (inr e) = inr (ap (marked_active x input n) e)

-- A tag of the advertiser under the name of the request.
abbrev pub Named : Uuid → ConversionTagCreate → ConversionTag → Type 0
Named a d tag = (tag.advertiser_id ≡ a) × (tag.name ≡ d.name)

module _ (env : Env) where
  -- A row of the tag, as the transaction sees it, with no commit of another request due.
  abbrev pub InTable : ConversionTag → World env.Remote env.Json → Type 0
  InTable tag w =
      Alone w
      × (row : ConversionTag) × Memᴰ row w.working.conversion_tags
      × Holds env.sql.numeric tag row

  interfere-InTable :
      (tag : ConversionTag) (w : World env.Remote env.Json)
      → InTable tag w
      → InTable tag (interfere w)
  interfere-InTable tag w h = subst (InTable tag) (sym (interfere-none w h.0)) h

  InTable-TokenSteps : (tag : ConversionTag) → TokenSteps env (InTable tag)
  unfolding flush_set
  InTable-TokenSteps tag = record {
    now_keeps = now-Keeps env (InTable tag) (λ w c l h. h);
    add_token = λ make.
        flush_add-Keeps env Tables.oauth_tokens (InTable tag) make (interfere-InTable tag)
          (λ w row rows h e. h);
    set_token = λ p f. record { at = λ w h. h };
  }

  interfere-Alone : (w : World env.Remote env.Json) → Alone w → Alone (interfere w)
  interfere-Alone w h = subst Alone (sym (interfere-none w h)) h

  new_tag-InTable :
      (a p : Uuid) (d : ConversionTagCreate)
      → Returns Alone (Tags.create env (pending_tag a p d)) (λ tag w. InTable tag w × Named a d tag)
  unfolding Tags.create
  new_tag-InTable a p d =
      flush_add-returns env Tables.conversion_tags Alone (λ tag w. InTable tag w × Named a d tag)
        (pending_tag a p d) interfere-Alone
        (λ w rows h e.
          let row = held_tag env.sql.numeric (pending_tag a p d w.next_id w.started) in
          (
            (
              h,
              row,
              subst (Memᴰ row)
                  (inserted _ (w.working.conversion_tags ++ row ∷ []) rows
                    (sym (env.sql.insert_checks _ _ _ _ _) ∙ e))
                  (last-Mem w.working.conversion_tags row),
              inr refl,
            ),
            (refl, refl),
          ))

  mark-InTable :
      (tag : ConversionTag) (x : String) (input : CustomConversionCreateInput)
      → Returns
          (InTable tag)
          (flush_set env Tables.conversion_tags (λ r. r.id == tag.id) (marked_active x input))
          (λ u w. InTable (marked_active x input w.started tag) w)
  unfolding flush_set
  mark-InTable tag x input = record {
    at = λ w h u w' e.
        let (alone, row, stands, holds) = h in
        subst (λ r. InTable (marked_active x input r.1.started tag) r.1) e
          (
            alone,
            marked_active x input w.started row,
            subst (Memᴰ (marked_active x input w.started row))
                (sym (env.sql.change_updates _ _ _ _))
                (rewritten-Mem (λ r. r.id == tag.id) (marked_active x input w.started)
                  w.working.conversion_tags row
                  ((==_iff row.id tag.id).1 (Holds-id env.sql.numeric tag row holds)) stands),
            Holds-marked env.sql.numeric tag row x input w.started holds,
          );
  }

  -- What `create` returns stands in the table, under the name of the request.
  abbrev pub Stored :
      Uuid → ConversionTagCreate → ConversionTag → World env.Remote env.Json → Type 0
  Stored a d tag w = InTable tag w × Named a d tag × (tag.status ≡ active)

  written-Stored :
      (a : Uuid) (d : ConversionTagCreate) (tag : ConversionTag) (x : String)
      (input : CustomConversionCreateInput)
      → Named a d tag
      → Returns {E = Exc}
          (λ w. InTable (marked_active x input w.started tag) w)
          (gets (λ w. w.started) >>= λ written. pure (marked_active x input written tag))
          (Stored a d)
  unfolding gets pure ◌>>=◌
  written-Stored a d tag x input named = record {
    at = λ w h t w' e.
        let q : Path ConversionTag (marked_active x input w.started tag) t = ground arith in
        let r : Path (World env.Remote env.Json) w w' = ground arith in
        subst₂ (Stored a d) q r (h, named, refl);
  }

  submit-Stored :
      (c : TokenCipher) (a : Uuid) (k : String) (p : Pixel) (d : ConversionTagCreate)
      (t : ConversionTag)
      → Returns (λ w. InTable t w × Named a d t) (submit env c a k p d t) (Stored a d)
  unfolding submit call_meta
  submit-Stored c a k p d t =
      Returns-bind _ _ (λ x w. InTable t w × Named a d t) (Stored a d)
        (record {
          at = λ w h x w' e. (
            (Returns_of_Keeps _
                  (get_access_token-Keeps (InTable-TokenSteps t) c a meta_provider)).at
                w h.0 x w' e,
            h.1,
          );
        })
        (λ token.
          Returns-bind _ _ (λ x w. InTable t w × Named a d t) (Stored a d)
            (Returns-catch _ _ _ (Returns_of_Keeps _ (record { at = λ w h. h }))
              (on_meta_error-Raises env t (meta_input p d)))
            (λ created. record {
              at = λ w h tag w' e.
                  (Returns-bind _ _
                      (λ x w. InTable (marked_active created.id (meta_input p d) w.started t) w)
                      (Stored a d) (mark-InTable t created.id (meta_input p d))
                      (λ u. written-Stored a d t created.id (meta_input p d) h.1)).at
                    w h.0 tag w' e;
            }))

  abbrev Found :
      Uuid → ConversionTagCreate → Option ConversionTag → World env.Remote env.Json → Type 0
  Found a d o w = Alone w × ((t : ConversionTag) → o ≡ some t → InTable t w × Named a d t)

  lookup-Found :
      (a : Uuid) (d : ConversionTagCreate)
      → Returns Alone (Tags.get_by_advertiser_and_name env a d.name) (Found a d)
  unfolding Tags.get_by_advertiser_and_name scalar
  lookup-Found a d = record {
    at = λ w h o w' e.
        let p : Path (World env.Remote env.Json) w w' = ground arith in
        subst (Found a d o) p (
          h,
          λ t q.
              let test : ConversionTag → Bool = λ r. r.advertiser_id == a && str_eq r.name d.name in
              let found : find test w.working.conversion_tags ≡ some t =
                sym (env.sql.scalar_finds _ test w.working.conversion_tags) ∙ ground arith in
              let holds : (t.advertiser_id == a && str_eq t.name d.name) ≡ true =
                find-holds test w.working.conversion_tags t found in
              (
                (h, t, find-Mem test w.working.conversion_tags t found, inl refl),
                (
                  (==_iff t.advertiser_id a).0 (ground arith),
                  (eq_iff t.name d.name).0 (ground arith),
                ),
              ),
        );
  }

  pub by_status :
      (c : TokenCipher) (a : Uuid) (k : String) (p : Pixel) (d : ConversionTagCreate)
      (t : ConversionTag) {s : TagStatus}
      → t.status ≡ s
      → create_or_resume env c a k p d (some t)
        ≡ (elim s [ active ↦ pure t | _ ↦ submit env c a k p d t ])
  unfolding create_or_resume
  by_status c a k p d t q = ap (λ s. elim s [ active ↦ pure t | _ ↦ submit env c a k p d t ]) q

  resume-Stored :
      (c : TokenCipher) (a : Uuid) (k : String) (p : Pixel) (d : ConversionTagCreate)
      (t : ConversionTag) (s : TagStatus)
      → t.status ≡ s
      → Returns
          (λ w. InTable t w × Named a d t)
          (create_or_resume env c a k p d (some t))
          (Stored a d)
  resume-Stored c a k p d t pending q =
      subst (λ m. Returns (λ w. InTable t w × Named a d t) m (Stored a d))
        (sym (by_status c a k p d t q)) (submit-Stored c a k p d t)
  resume-Stored c a k p d t failed q =
      subst (λ m. Returns (λ w. InTable t w × Named a d t) m (Stored a d))
        (sym (by_status c a k p d t q)) (submit-Stored c a k p d t)
  resume-Stored c a k p d t active q = record {
    at = λ w h tag w' e.
        let r = sym (resume-active env c a k p d t w q) ∙ e in
        let x : Path ConversionTag t tag = ground arith in
        let y : Path (World env.Remote env.Json) w w' = ground arith in
        subst₂ (Stored a d) x y (h.0, h.1, q);
  }

  any_tag-Stored :
      (c : TokenCipher) (a : Uuid) (k : String) (p : Pixel) (d : ConversionTagCreate)
      (o : Option ConversionTag)
      → Returns (Found a d o) (create_or_resume env c a k p d o) (Stored a d)
  unfolding create_or_resume
  any_tag-Stored c a k p d none =
      Returns-bind _ _ (λ tag w. InTable tag w × Named a d tag) (Stored a d)
        (Returns-catch _ _ _ (Returns-strengthen _ _ (λ w h. h.0) (new_tag-InTable a p.id d))
          (on_insert_error-Raises env d.name))
        (λ tag. submit-Stored c a k p d tag)
  any_tag-Stored c a k p d (some t) = record {
    at = λ w h. (resume-Stored c a k p d t t.status refl).at w (h.1 t refl);
  }

  pub create-Stored :
      (c : TokenCipher) (a : Uuid) (d : ConversionTagCreate)
      → Returns Alone (create env c a d) (Stored a d)
  unfolding create Advertisers.get
  create-Stored c a d = passing _ _ (Keeps-scalar env _ _) (λ found.
      passing _ _ (Keeps-or_raise _ _) (λ advertiser. passing _ _ (Keeps-or_raise _ _) (λ account.
        passing _ _ (Keeps-scalar env _ _) (λ row. passing _ _ (Keeps-or_raise _ _) (λ pixel.
          Returns-bind _ _ (Found a d) (Stored a d) (lookup-Found a d)
            (λ existing. any_tag-Stored c a account pixel d existing))))))
    where
      passing :
          {A : Type 0} (m : App env A) (f : A → App env ConversionTag)
          → Keeps Alone m
          → ((x : A) → Returns Alone (f x) (Stored a d))
          → Returns Alone (m >>= f) (Stored a d)
      passing m f k r = Returns-bind m f (λ x. Alone) (Stored a d) (Returns_of_Keeps m k) r
