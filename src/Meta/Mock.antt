-- ===== src/Meta/Mock.antt =====
-- The in-memory adapter (app/integrations/meta/mock_adapter.py).
pub mod Names
use Prim.Native.String.{◌++◌, slice}
use hub_meta_conversion_serv.Base.{
  ℕ, ◌+◌, ◌%◌, Bool, true, false, not, ◌&&◌, String, Option, none, some, List, [], ◌∷◌, str_eq,
  ◌==◌, leb, any, if◌then◌else◌, dict_get, dict_set,
}
use hub_meta_conversion_serv.Exec.{Exec, ◌>>=◌, ◌>>◌, pure, raise, gets}
use hub_meta_conversion_serv.Meta.Schemas.{MetaPixel, CustomConversion, CustomConversionCreateInput}
use hub_meta_conversion_serv.Meta.Adapter.{
  MetaError, rate_limited, not_found, Raised, meta, MetaAdapter,
}

-- A `MockMetaAdapter`. `inverse_fail_rate` is `int(round(1.0 / fail_rate))`, and `none` for a rate
-- of 0. Calls take the lock for each block that they run, and no two blocks overlap.
pub record MockMeta : Type 0 where
  pub pixels : List (String × List MetaPixel)
  pub conversions : List (String × CustomConversion)
  pub conversions_by_name : List ((String × String) × CustomConversion)
  pub rate_limit_every : ℕ
  pub inverse_fail_rate : Option ℕ
  pub call_counter : ℕ

abbrev pub same_pair : String × String → String × String → Bool
same_pair a b = str_eq a.0 b.0 && str_eq a.1 b.1

abbrev pub Mock : Type 0 → Type 0
Mock A = Exec MockMeta Raised A

unfoldable pub seed_pixels : String → List MetaPixel → MockMeta → MockMeta
seed_pixels ad_account_id pixels m = record m {
  pixels = dict_set str_eq ad_account_id pixels m.pixels;
}

-- The second test of `_maybe_fail`, on the counter.
unfoldable pub fails_at : Option ℕ → ℕ → Bool
fails_at none counter = false
fails_at (some inverse) counter = counter % (if leb 1 inverse then inverse else 1) == 0

-- `retry_after_seconds` in milliseconds.
unfoldable pub maybe_fail : Mock Unit
maybe_fail m =
    let counter = m.call_counter + 1 in
    let counted = record m { call_counter = counter } in
    if not (m.rate_limit_every == 0) && counter % m.rate_limit_every == 0
    then raise (meta (rate_limited "mock rate limit" (some 10))) counted
    else if fails_at m.inverse_fail_rate counter
    then raise (meta (rate_limited "mock transient error" (some 10))) counted
    else pure tt counted

-- `self._pixels.get(ad_account_id, [])`
unfoldable pub pixels_of : String → MockMeta → List MetaPixel
pixels_of ad_account_id m = elim (dict_get str_eq ad_account_id m.pixels) [
  | none ↦ []
  | some pixels ↦ pixels
]

unfoldable pub list_pixels : String → String → Mock (List MetaPixel)
list_pixels ad_account_id access_token = maybe_fail >> gets (pixels_of ad_account_id)

-- `sha1_hex` is `hashlib.sha1(….encode("utf-8")).hexdigest()`.
module _ (sha1_hex : String → String) where
  unfoldable pub stable_id : String → String → String → String
  stable_id kind ad_account_id name =
      kind ++ "_" ++ slice (sha1_hex (ad_account_id ++ "|" ++ name)) 0 16

  unfoldable pub new_conversion : String → CustomConversionCreateInput → CustomConversion
  unfolding stable_id
  new_conversion ad_account_id payload = record {
    id = stable_id "cc" ad_account_id payload.name;
    pixel_id = payload.pixel_id;
    name = payload.name;
    event_type = payload.event_type;
    category = payload.category;
    value = payload.value;
    currency = payload.currency;
    rule = payload.rule;
  }

  -- The end of the locked block, for the conversion of that name.
  unfoldable pub keep_or_create :
      String → CustomConversionCreateInput → Option CustomConversion → Mock CustomConversion
  keep_or_create ad_account_id payload (some existing) m = pure existing m
  keep_or_create ad_account_id payload none m =
      let conv = new_conversion ad_account_id payload in
      pure conv (record m {
        conversions = dict_set str_eq conv.id conv m.conversions;
        conversions_by_name =
            dict_set same_pair (ad_account_id, payload.name) conv m.conversions_by_name;
      })

  unfoldable pub create_locked : String → CustomConversionCreateInput → Mock CustomConversion
  unfolding pixels_of
  create_locked ad_account_id payload m =
      if any (λ p. str_eq p.id payload.pixel_id) (pixels_of ad_account_id m)
      then keep_or_create ad_account_id payload
          (dict_get same_pair (ad_account_id, payload.name) m.conversions_by_name) m
      else raise
          (meta
            (not_found ("pixel " ++ payload.pixel_id ++ " not found on account " ++ ad_account_id)))
          m

  unfoldable pub create_custom_conversion :
      String → String → CustomConversionCreateInput → Mock CustomConversion
  create_custom_conversion ad_account_id access_token payload =
      maybe_fail >> create_locked ad_account_id payload

  abbrev pub mock_adapter : MetaAdapter MockMeta
  mock_adapter = record {
    list_pixels = list_pixels;
    create_custom_conversion = create_custom_conversion;
  }
