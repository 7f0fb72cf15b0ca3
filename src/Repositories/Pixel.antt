-- ===== src/Repositories/Pixel.antt =====
-- app/repositories/pixel.py
use hub_meta_conversion_serv.Base.{
  ℕ, Bool, true, false, String, Option, none, some, List, ◌==◌, str_eq, ◌&&◌, if◌then◌else◌,
}
use hub_meta_conversion_serv.Exec.{◌>>=◌, ◌>>◌, pure}
use hub_meta_conversion_serv.Models.{Uuid, Pixel}
use hub_meta_conversion_serv.Models.Tables
use hub_meta_conversion_serv.Env.{Env}
use hub_meta_conversion_serv.Session.{App, scalar, scalars, flush_add, flush_set}

abbrev pub new_pixel : Uuid → String → String → String → Uuid → ℕ → Pixel
new_pixel advertiser_id meta_pixel_id name status id now = record {
  id = id;
  advertiser_id = advertiser_id;
  meta_pixel_id = meta_pixel_id;
  name = name;
  status = status;
  created_at = now;
  updated_at = now;
}

-- The assignments of the update branch; a row with no change of value is not written again.
unfoldable pub refreshed : Uuid → String → String → ℕ → Pixel → Pixel
refreshed advertiser_id name status now r = record r {
  name = name;
  status = status;
  advertiser_id = advertiser_id;
  updated_at =
      if str_eq r.name name && (str_eq r.status status && r.advertiser_id == advertiser_id)
      then r.updated_at
      else now;
}

module _ (env : Env) where
  -- `name_before` is the database's collation.
  unfoldable pub list_for_advertiser : (String → String → Bool) → Uuid → App env (List Pixel)
  list_for_advertiser name_before advertiser_id =
      scalars env Tables.pixels (λ r. r.advertiser_id == advertiser_id)
        (λ r s. name_before r.name s.name)

  unfoldable pub get_by_meta_id : String → App env (Option Pixel)
  get_by_meta_id meta_pixel_id =
      scalar env Tables.pixels (λ r. str_eq r.meta_pixel_id meta_pixel_id)

  -- The two branches of `upsert_from_meta`. The program reads only the second part of the result,
  -- whether a row was created.
  unfoldable pub insert_or_update : Uuid → String → String → String → Option Pixel → App env Bool
  insert_or_update advertiser_id meta_pixel_id name status none =
      flush_add env Tables.pixels (new_pixel advertiser_id meta_pixel_id name status) >> pure true
  insert_or_update advertiser_id meta_pixel_id name status (some existing) =
      flush_set env Tables.pixels (λ r. r.id == existing.id) (refreshed advertiser_id name status)
      >> pure false

  unfoldable pub upsert_from_meta : Uuid → String → String → String → App env Bool
  upsert_from_meta advertiser_id meta_pixel_id name status = do
    existing ← get_by_meta_id meta_pixel_id
    insert_or_update advertiser_id meta_pixel_id name status existing
