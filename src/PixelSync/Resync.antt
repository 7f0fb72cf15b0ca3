-- ===== src/PixelSync/Resync.antt =====
-- The loop of `sync_for_advertiser` (app/services/pixel_sync_service.py), run once and again.
use hub_meta_conversion_serv.Base.{
  ℕ, suc, ◌+◌, ◌≡◌, refl, sym, ap, ◌∙◌, arith, Bool, true, false, not, String, Option, none, some,
  List, [], ◌∷◌, str_eq, eq_iff, All, All-map, any, find, update, length, any_of_find-none,
  any-snoc, any_of_find-some, ◌==◌,
}
use hub_meta_conversion_serv.Exec.{Result, ok, err, ◌>>=◌, pure, continue}
use hub_meta_conversion_serv.Models.{Uuid, Pixel}
use hub_meta_conversion_serv.Models.Tables
use hub_meta_conversion_serv.Models.Tables.{has_advertiser}
use hub_meta_conversion_serv.Meta.Schemas.{MetaPixel}
use hub_meta_conversion_serv.Errors.{Exc}
use hub_meta_conversion_serv.Env.{Env}
use hub_meta_conversion_serv.Session.{World, scalar, flush_set}
use hub_meta_conversion_serv.Session.Inserts.{str_eq_comm, interfere-none, flush_add-new}
use hub_meta_conversion_serv.Repositories.Pixel.{
  new_pixel, refreshed, get_by_meta_id, insert_or_update, upsert_from_meta,
}
use hub_meta_conversion_serv.PixelSync.{counted, upsert_all}

-- A row for the pixel is there.
abbrev pub known : {R J : Type 0} → World R J → String → Bool
known w i = any (λ r. str_eq r.meta_pixel_id i) w.working.pixels

pub record Ready {R J : Type 0} (a : Uuid) (w : World R J) : Type 0 where
  pub alone : w.arrivals ≡ []
  pub here : has_advertiser w.working a ≡ true

-- An update leaves the ids of the pixels.
any-update :
    (i : String) (p : Pixel → Bool) (f : Pixel → Pixel) (l : List Pixel)
    → ((r : Pixel) → (f r).meta_pixel_id ≡ r.meta_pixel_id)
    → any (λ r. str_eq r.meta_pixel_id i) (update p f l) ≡ any (λ r. str_eq r.meta_pixel_id i) l
any-update i p f [] h = refl
any-update i p f (y ∷ l) h = ground (arith, any-update i p f l h, h y)

pub clash-eq-known :
    (i : String) (l : List Pixel)
    → any (λ r. str_eq i r.meta_pixel_id) l ≡ any (λ r. str_eq r.meta_pixel_id i) l
clash-eq-known i [] = refl
clash-eq-known i (y ∷ l) = rw (str_eq_comm i y.meta_pixel_id, clash-eq-known i l)

pub own_id : (i : String) → str_eq i i ≡ true
own_id i = ground (arith, eq_iff i i)

module _ (env : Env) (a : Uuid) where
  abbrev pub W : Type 0
  W = World env.Remote env.Json

  -- What one upsert has done.
  pub record Upserted (w : W) (i : String) (r : Result Exc Bool × W) : Type 0 where
    pub returned : r.0 ≡ ok (not (known w i))
    pub ready : Ready a r.1
    pub stored : known r.1 i ≡ true
    pub others : (j : String) → known w j ≡ true → known r.1 j ≡ true

  insert_or_update-Upserted :
      (w : W) (i name status : String) (o : Option Pixel)
      → find (λ r. str_eq r.meta_pixel_id i) w.working.pixels ≡ o
      → Ready a w
      → Upserted w i (insert_or_update env a i name status o w)
  unfolding insert_or_update ◌>>=◌ pure flush_set
  insert_or_update-Upserted w i name status none e k =
      let rows = w.working.pixels in
      let row = new_pixel a i name status w.next_id w.started in
      let absent = any_of_find-none (λ r. str_eq r.meta_pixel_id i) rows e in
      rw
        (flush_add-new env Tables.pixels (new_pixel a i name status) w w (interfere-none w k.alone)
          k.here (clash-eq-known i rows ∙ absent))
        (record {
          returned = ap (λ b. ok (not b)) (sym absent);
          ready = record { alone = k.alone; here = k.here };
          stored = rw (any-snoc (λ r. str_eq r.meta_pixel_id i) rows row, absent) (own_id i);
          others = λ j h. rw (any-snoc (λ r. str_eq r.meta_pixel_id j) rows row, h) refl;
        })
  insert_or_update-Upserted w i name status (some existing) e k =
      let rows = w.working.pixels in
      let present = any_of_find-some (λ r. str_eq r.meta_pixel_id i) rows existing e in
      let kept : (j : String) → _ = λ j.
        ap (any (λ r. str_eq r.meta_pixel_id j)) (
          env.sql.change_updates Pixel (λ r. r.id == existing.id)
            (refreshed a name status w.started) rows)
        ∙ any-update j (λ r. r.id == existing.id) (refreshed a name status w.started) rows
            (λ r. unfold refreshed in refl) in
      record {
        returned = ap (λ b. ok (not b)) (sym present);
        ready = record { alone = k.alone; here = k.here };
        stored = kept i ∙ present;
        others = λ j h. kept j ∙ h;
      }

  pub upsert-Upserted :
      (w : W) (i name status : String)
      → Ready a w
      → Upserted w i (upsert_from_meta env a i name status w)
  unfolding upsert_from_meta get_by_meta_id scalar ◌>>=◌
  upsert-Upserted w i name status k =
      rw (env.sql.scalar_finds Pixel (λ r. str_eq r.meta_pixel_id i) w.working.pixels)
        (insert_or_update-Upserted w i name status _ refl k)

  err-not_ok : (e : Exc) (b : Bool) → ◌≡◌ {A = Result Exc Bool} (err e) (ok b) → ⊥
  err-not_ok e b q = ground arith

  -- What the loop has done with the pixels that were fetched.
  record Synced (w : W) (fetched : List MetaPixel) (start : ℕ × ℕ) (r : Result Exc (ℕ × ℕ) × W)
      : Type 0 where
    counts : ℕ × ℕ
    returned : r.0 ≡ ok counts
    total : counts.0 + counts.1 ≡ start.0 + start.1 + length fetched
    ready : Ready a r.1
    stored : All (λ p. known r.1 p.id ≡ true) fetched
    others : (j : String) → known w j ≡ true → known r.1 j ≡ true

  -- The loop goes on after an upsert that returned.
  upsert_all-Synced :
      (fetched : List MetaPixel) (start : ℕ × ℕ) (w : W)
      → Ready a w
      → Synced w fetched start (upsert_all env a fetched start w)
  unfolding upsert_all pure ◌>>=◌ upsert_from_meta
  upsert_all-Synced [] start w k = record {
    counts = start;
    returned = refl;
    total = omega arith;
    ready = k;
    stored = tt;
    others = λ j h. h;
  }
  upsert_all-Synced (p ∷ rest) start w k =
      let m = upsert_from_meta env a p.id p.name p.status w in
      after m.0 m.1 (upsert-Upserted w p.id p.name p.status k)
        (λ b r. upsert_all-Synced rest (counted b start) m.1 r)
    where
      after :
          (x : Result Exc Bool) (w1 : W)
          → Upserted w p.id (x, w1)
          → ((b : Bool)
              → Ready a w1
              → Synced w1 rest (counted b start) (upsert_all env a rest (counted b start) w1))
          → Synced w (p ∷ rest) start (continue x (λ b. upsert_all env a rest (counted b start)) w1)
      after (err e) w1 u go = absurd (err-not_ok e (not (known w p.id)) u.returned)
      after (ok b) w1 u go =
          let s = go b u.ready in
          record {
            counts = s.counts;
            returned = s.returned;
            total = s.total ∙ sums b;
            ready = s.ready;
            stored = (s.others p.id u.stored, s.stored);
            others = λ j h. s.others j (u.others j h);
          }
        where
          sums :
              (b : Bool)
              → (counted b start).0 + (counted b start).1 + length rest
                ≡ start.0 + start.1 + suc (length rest)
          sums true = omega arith
          sums false = omega arith

  -- Where every pixel is known, the loop creates none.
  upsert_all-known :
      (fetched : List MetaPixel) (c u : ℕ) (w : W)
      → Ready a w
      → All (λ p. known w p.id ≡ true) fetched
      → (upsert_all env a fetched (c, u) w).0 ≡ ok (c, u + length fetched)
  unfolding upsert_all pure ◌>>=◌ upsert_from_meta
  upsert_all-known [] c u w k h = ap (λ n. ok (c, n)) (omega arith)
  upsert_all-known (p ∷ rest) c u w k h =
      let m = upsert_from_meta env a p.id p.name p.status w in
      let d = upsert-Upserted w p.id p.name p.status k in
      after m.0 m.1 (d.returned ∙ ap (λ b. ok (not b)) h.0)
        (upsert_all-known rest c (u + 1) m.1 d.ready (All-map (λ q e. d.others q.id e) rest h.1))
    where
      after :
          (x : Result Exc Bool) (w1 : W)
          → x ≡ ok false
          → (upsert_all env a rest (c, u + 1) w1).0 ≡ ok (c, u + 1 + length rest)
          → (continue x (λ b. upsert_all env a rest (counted b (c, u))) w1).0
            ≡ ok (c, u + suc (length rest))
      after x w1 e h = rw e (h ∙ ap (λ n. ok (c, n)) (omega arith))

  zero_start : (n : ℕ) → 0 + 0 + n ≡ n
  zero_start n = omega arith

  -- No commit of another request is due and the advertiser is there. Then the loop of the pixel
  -- sync returns, its two counters add up to the number of fetched pixels, there is a row for
  -- every fetched pixel, and the same loop run again returns with none created and all updated.
  pub resync_creates_none :
      (fetched : List MetaPixel) (w : W)
      → w.arrivals ≡ []
      → has_advertiser w.working a ≡ true
      → let synced = upsert_all env a fetched (0, 0) w in
        (created : ℕ) × (updated : ℕ) × (synced.0 ≡ ok (created, updated))
        × (created + updated ≡ length fetched)
        × All (λ p. known synced.1 p.id ≡ true) fetched
        × ((upsert_all env a fetched (0, 0) synced.1).0 ≡ ok (0, length fetched))
  resync_creates_none fetched w alone here =
      let s = upsert_all-Synced fetched (0, 0) w (record { alone = alone; here = here }) in
      (
        s.counts.0,
        s.counts.1,
        s.returned,
        s.total ∙ zero_start (length fetched),
        s.stored,
        upsert_all-known fetched 0 0 (upsert_all env a fetched (0, 0) w).1 s.ready s.stored
            ∙ ap (λ n. ok (0, n)) (omega arith),
      )
