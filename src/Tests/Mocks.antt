-- ===== src/Tests/Mocks.antt =====
-- The theorems on the mock adapter at concrete inputs.
use hub_meta_conversion_serv.Base.{◌≡◌, refl, none, List, [], ◌∷◌, String}
use hub_meta_conversion_serv.Exec.{ok, ◌>>=◌}
use hub_meta_conversion_serv.Meta.Schemas.{CustomConversion, CustomConversionCreateInput}
use hub_meta_conversion_serv.Meta.Mock.{
  MockMeta, create_custom_conversion, create_locked, keep_or_create, maybe_fail, fails_at,
  pixels_of, new_conversion, seed_pixels, list_pixels,
}
use hub_meta_conversion_serv.Meta.Mock.Names.{
  MockCall, list, create, run, run_all, name_makes_one_conversion,
}
use hub_meta_conversion_serv.Tests.World.{mock}

abbrev plain : String → String
plain s = s

abbrev sale : CustomConversionCreateInput
sale = record {
  pixel_id = "px_1";
  name = "sale";
  event_type = "Purchase";
  category = "purchase";
  value = none;
  currency = none;
  rule = none;
}

abbrev made : CustomConversion
made = record {
  id = "cc_act_1|sale";
  pixel_id = "px_1";
  name = "sale";
  event_type = "Purchase";
  category = "purchase";
  value = none;
  currency = none;
  rule = none;
}

abbrev calls : List MockCall
calls = list "act_1" "t" ∷ create "act_1" "t" (record sale { name = "lead" }) ∷ []

abbrev after_calls : MockMeta
after_calls = run_all plain calls (create_custom_conversion plain "act_1" "t" sale mock).1

sale-made : (create_custom_conversion plain "act_1" "t" sale mock).0 ≡ ok made
unfolding create_custom_conversion create_locked keep_or_create maybe_fail fails_at pixels_of
    new_conversion ◌>>=◌
sale-made = refl

sale-again :
    (create_custom_conversion plain "act_1" "u" (record sale { pixel_id = "px_2" }) after_calls).0
    ≡ ok made
unfolding create_custom_conversion create_locked keep_or_create maybe_fail fails_at pixels_of
    new_conversion ◌>>=◌ run run_all list_pixels seed_pixels
sale-again = refl

name_makes_one_conversion_example :
    (made ≡ made)
    × ((create_custom_conversion plain "act_1" "u"
          (record sale { pixel_id = "px_2" })
          after_calls).1.conversions
        ≡ after_calls.conversions)
name_makes_one_conversion_example =
    name_makes_one_conversion plain "act_1" "t" "u" sale (record sale { pixel_id = "px_2" }) mock
      made made calls refl sale-made sale-again
