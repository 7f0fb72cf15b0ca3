-- ===== src/Meta/Real.antt =====
-- The adapter over the HTTP client (app/integrations/meta/real_adapter.py).
use Prim.Native.String.{◌++◌}
use hub_meta_conversion_serv.Base.{ℕ, String, Option, none, some, List, [], ◌∷◌, dict_get, str_eq}
use hub_meta_conversion_serv.Base.{◌++◌ as append}
use hub_meta_conversion_serv.Exec.{Exec, ◌>>=◌, pure, or_raise}
use hub_meta_conversion_serv.Meta.Schemas.{
  Decimal, Rule, MetaPixel, CustomConversion, CustomConversionCreateInput,
}
use hub_meta_conversion_serv.Meta.Adapter.{Raised, other, MetaAdapter}
use hub_meta_conversion_serv.Meta.Client.{Web, get, post}

-- Python values that are JSON, and pydantic: the elements of an iterable, `MetaPixel.model_validate`,
-- `str(data[key])`, and the making of a dict, a text and the dump of a rule. `none` is an exception.
pub record Wire (J : Type 0) : Type 0 where
  pub items_of : J → Option (List J)
  pub validate_pixel : J → Option MetaPixel
  pub text_at : J → String → Option String
  pub object : List (String × J) → J
  pub text : String → J
  pub dump_rule : Rule → J
  pub str_decimal : Decimal → String

abbrev pub in_front : {B : Type 0} → Option B → Option (List B) → Option (List B)
in_front none ys = none
in_front (some y) none = none
in_front (some y) (some ys) = some (y ∷ ys)

-- `[f(item) for item in items]`
unfoldable pub all_valid : {A B : Type 0} → (A → Option B) → List A → Option (List B)
all_valid f [] = some []
all_valid f (x ∷ xs) = in_front (f x) (all_valid f xs)

module _ {R : Type 0} (web : Web R) (wire : Wire web.Json) (max_retries : ℕ) where
  -- `data.get("data", []) if isinstance(data, dict) else []`
  unfoldable pub data_items : web.Json → Option (List web.Json)
  data_items reply = elim (web.dict_of reply) [
    | none ↦ some []
    | some entries ↦ elim (dict_get str_eq "data" entries) [
      | none ↦ some []
      | some items ↦ wire.items_of items
    ]
  ]

  unfoldable pub list_pixels : String → String → Exec R Raised (List MetaPixel)
  unfolding data_items
  list_pixels ad_account_id access_token = do
    reply ←
        get web max_retries ("/" ++ ad_account_id ++ "/adspixels") access_token
          (some (("fields", "id,name,status") ∷ []))
    items ← or_raise (data_items reply) (other "TypeError")
    or_raise (all_valid wire.validate_pixel items) (other "ValidationError")

  abbrev pub optional_entry :
      {A : Type 0} → String → (A → web.Json) → Option A → List (String × web.Json)
  optional_entry key f none = []
  optional_entry key f (some a) = (key, f a) ∷ []

  unfoldable pub conversion_body : CustomConversionCreateInput → List (String × web.Json)
  conversion_body payload =
      append
        (("pixel_id", wire.text payload.pixel_id)
          ∷ ("name", wire.text payload.name)
          ∷ ("custom_event_type", wire.text payload.event_type)
          ∷ ("category", wire.text payload.category)
          ∷ [])
        (append
          (optional_entry "default_conversion_value" (λ v. wire.text (wire.str_decimal v))
            payload.value)
          (append (optional_entry "default_conversion_currency" wire.text payload.currency)
            (optional_entry "rule" wire.dump_rule payload.rule)))

  unfoldable pub create_custom_conversion :
      String → String → CustomConversionCreateInput → Exec R Raised CustomConversion
  unfolding conversion_body
  create_custom_conversion ad_account_id access_token payload = do
    reply ←
        post web max_retries ("/" ++ ad_account_id ++ "/customconversions") access_token
          (wire.object (conversion_body payload))
    id ← or_raise (wire.text_at reply "id") (other "KeyError")
    pure (record {
      id = id;
      pixel_id = payload.pixel_id;
      name = payload.name;
      event_type = payload.event_type;
      category = payload.category;
      value = payload.value;
      currency = payload.currency;
      rule = payload.rule;
    })

  abbrev pub real_adapter : MetaAdapter R
  real_adapter = record {
    list_pixels = list_pixels;
    create_custom_conversion = create_custom_conversion;
  }
