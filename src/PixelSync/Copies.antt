-- ===== src/PixelSync/Copies.antt =====
-- What the pixel sync leaves in the table: Meta's pixels as Meta has them, and the other rows as they
-- were (app/services/pixel_sync_service.py, app/repositories/pixel.py).
use mathlib.Core.Option
use hub_meta_conversion_serv.Base.{
  find-Mem, find-update, ℕ, ◌≡◌, ◌≢◌, refl, sym, ap, subst, ◌∙◌, arith, Bool, not, String, Option,
  none, some, List, [], ◌∷◌, str_eq, eq_iff, ==_iff, All, find-holds, find-snoc_none,
  find-snoc_skip, any_of_find-none, ◌==◌, if◌then◌else◌, Bool-cases, inl, inr,
}
use hub_meta_conversion_serv.Exec.{◌>>=◌, pure, continue}
use hub_meta_conversion_serv.Models.{Uuid, Pixel}
use hub_meta_conversion_serv.Models.Tables
use hub_meta_conversion_serv.Models.Tables.{has_advertiser}
use hub_meta_conversion_serv.Meta.Schemas.{MetaPixel}
use hub_meta_conversion_serv.Env.{Env}
use hub_meta_conversion_serv.Session.{World, scalar, flush_set}
use hub_meta_conversion_serv.Session.Inserts.{interfere-none, flush_add-new}
use hub_meta_conversion_serv.Repositories.Pixel.{
  new_pixel, refreshed, get_by_meta_id, insert_or_update, upsert_from_meta,
}
use hub_meta_conversion_serv.PixelSync.{counted, upsert_all}
use hub_meta_conversion_serv.PixelSync.Resync.{
  known, Ready, upsert-Upserted, clash-eq-known, own_id,
}
use hub_meta_conversion_serv.PixelSync.Keys.{
  row_of, Keyed, Copy, Distinct, snoc-Keyed, update-Keyed,
}

module _ (env : Env) (a : Uuid) where
  abbrev W : Type 0
  W = World env.Remote env.Json

  abbrev pub KeyedIn : W → Type 0
  KeyedIn w = Keyed w.next_id w.working.pixels

  -- What an upsert leaves.
  pub record Copied (w : W) (p : MetaPixel) (w' : W) : Type 0 where
    pub keyed : KeyedIn w'
    pub copy : Copy a w'.working.pixels p
    pub others : (j : String) → p.id ≢ j → row_of w'.working.pixels j ≡ row_of w.working.pixels j

  -- The row that the update rewrites is only that of its own pixel.
  other_row :
      (w : W) (i j : String) (existing : Pixel) (f : Pixel → Pixel) (o : Option Pixel)
      → KeyedIn w
      → row_of w.working.pixels i ≡ some existing
      → i ≢ j
      → row_of w.working.pixels j ≡ o
      → Option.map (λ x. if x.id == existing.id then f x else x) o ≡ o
  other_row w i j existing f none k e d q = refl
  other_row w i j existing f (some x) k e d q = elim (Bool-cases (x.id == existing.id)) [
    | inl same ↦
        let l = w.working.pixels in
        let one =
          k.apart x existing (find-Mem _ l x q) (find-Mem _ l existing e)
            ((==_iff x.id existing.id).0 same) in
        let mine =
          (eq_iff existing.meta_pixel_id i).0
            (find-holds (λ r. str_eq r.meta_pixel_id i) l existing e) in
        let its = (eq_iff x.meta_pixel_id j).0 (find-holds (λ r. str_eq r.meta_pixel_id j) l x q) in
        absurd (d (sym mine ∙ sym one ∙ its))
    | inr differs ↦ rw differs refl
  ]

  insert_or_update-Copied :
      (w : W) (p : MetaPixel) (o : Option Pixel)
      → row_of w.working.pixels p.id ≡ o
      → Ready a w
      → KeyedIn w
      → Copied w p (insert_or_update env a p.id p.name p.status o w).1
  unfolding insert_or_update ◌>>=◌ pure flush_set
  insert_or_update-Copied w p none e ready k =
      let rows = w.working.pixels in
      let row = new_pixel a p.id p.name p.status w.next_id w.started in
      let absent = any_of_find-none (λ r. str_eq r.meta_pixel_id p.id) rows e in
      rw
        (flush_add-new env Tables.pixels (new_pixel a p.id p.name p.status) w w
          (interfere-none w ready.alone) ready.here (clash-eq-known p.id rows ∙ absent))
        (record {
          keyed = snoc-Keyed w.next_id rows row refl k;
          copy = record {
            row = row;
            found = find-snoc_none _ rows row e (own_id p.id);
            name = refl;
            status = refl;
            advertiser = refl;
          };
          others = λ j d.
              find-snoc_skip (λ r. str_eq r.meta_pixel_id j) rows row
                (ground (arith, eq_iff p.id j, d));
        })
  insert_or_update-Copied w p (some existing) e ready k =
      let rows = w.working.pixels in
      let test : Pixel → Bool = λ r. r.id == existing.id in
      let f = refreshed a p.name p.status w.started in
      let changed = env.sql.change_updates Pixel test f rows in
      let looked : (j : String)
          → row_of (env.sql.change Pixel test f rows) j
            ≡ Option.map (λ x. if test x then f x else x) (row_of rows j) =
        λ j.
          ap (λ l. row_of l j) changed
          ∙ find-update (λ r. str_eq r.meta_pixel_id j) test f rows
              (λ r. unfold refreshed in refl) in
      record {
        keyed = subst (Keyed w.next_id) (sym changed) (
            update-Keyed w.next_id test f rows (λ r. unfold refreshed in refl)
              (λ r. unfold refreshed in refl) k);
        copy = record {
          row = f existing;
          found = looked p.id ∙ rw (e, (==_iff existing.id existing.id).1 refl) refl;
          name = unfold refreshed in refl;
          status = unfold refreshed in refl;
          advertiser = unfold refreshed in refl;
        };
        others = λ j d. looked j ∙ other_row w p.id j existing f (row_of rows j) k e d refl;
      }

  upsert-Copied :
      (w : W) (p : MetaPixel)
      → Ready a w
      → KeyedIn w
      → Copied w p (upsert_from_meta env a p.id p.name p.status w).1
  unfolding upsert_from_meta get_by_meta_id scalar ◌>>=◌
  upsert-Copied w p ready k =
      rw (env.sql.scalar_finds Pixel (λ r. str_eq r.meta_pixel_id p.id) w.working.pixels)
        (insert_or_update-Copied w p _ refl ready k)

  -- What the loop leaves.
  pub record Copies (w : W) (fetched : List MetaPixel) (w' : W) : Type 0 where
    pub copies : All (Copy a w'.working.pixels) fetched
    pub others :
        (j : String)
        → All (λ p. p.id ≢ j) fetched
        → row_of w'.working.pixels j ≡ row_of w.working.pixels j

  loop-step :
      (w : W) (p : MetaPixel) (rest : List MetaPixel) (counts : ℕ × ℕ)
      → Ready a w
      → upsert_all env a (p ∷ rest) counts w
        ≡ upsert_all env a rest
            (counted (not (known w p.id)) counts)
            (upsert_from_meta env a p.id p.name p.status w).1
  unfolding upsert_all ◌>>=◌
  loop-step w p rest counts ready =
      ap
        (λ r.
          continue r (λ b. upsert_all env a rest (counted b counts))
            (upsert_from_meta env a p.id p.name p.status w).1)
        (upsert-Upserted env a w p.id p.name p.status ready).returned

  same-Copy :
      (l l' : List Pixel) (p : MetaPixel)
      → row_of l' p.id ≡ row_of l p.id
      → Copy a l p
      → Copy a l' p
  same-Copy l l' p e k = record {
    row = k.row;
    found = e ∙ k.found;
    name = k.name;
    status = k.status;
    advertiser = k.advertiser;
  }

  pub upsert_all-Copies :
      (fetched : List MetaPixel) (counts : ℕ × ℕ) (w : W)
      → Ready a w
      → KeyedIn w
      → Distinct fetched
      → Copies w fetched (upsert_all env a fetched counts w).1
  unfolding upsert_all pure
  upsert_all-Copies [] counts w ready k d = record { copies = tt; others = λ j h. refl }
  upsert_all-Copies (p ∷ rest) counts w ready k d =
      let w1 = (upsert_from_meta env a p.id p.name p.status w).1 in
      let one = upsert-Copied w p ready k in
      let c =
        upsert_all-Copies rest (counted (not (known w p.id)) counts) w1
          (upsert-Upserted env a w p.id p.name p.status ready).ready one.keyed d.1 in
      subst (Copies w (p ∷ rest)) (sym (ap (λ r. r.1) (loop-step w p rest counts ready))) (record {
        copies = (same-Copy w1.working.pixels _ p (c.others p.id d.0) one.copy, c.copies);
        others = λ j h. c.others j h.1 ∙ one.others j h.0;
      })
