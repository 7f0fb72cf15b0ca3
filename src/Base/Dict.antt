-- ===== src/Base/Dict.antt =====
-- Python dicts as association lists, under a Boolean test on the keys.
use mathlib.Core.Path.{◌≡◌}
use mathlib.Core.Bool.{Bool, true, false}
use mathlib.Core.List.{List, [], ◌∷◌}
use mathlib.Core.Option.{Option, none, some}
use native.Mathlib.Omega.{arith}
use hub_meta_conversion_serv.Base.Tests.{if◌then◌else◌}

module _ {K V : Type 0} (same : K → K → Bool) where
  -- `d.get(key)`
  abbrev pub dict_get : K → List (K × V) → Option V
  dict_get key [] = none
  dict_get key (entry ∷ d) = if same entry.0 key then some entry.1 else dict_get key d

  -- `d[key] = value`
  abbrev pub dict_set : K → V → List (K × V) → List (K × V)
  dict_set key value [] = (key, value) ∷ []
  dict_set key value (entry ∷ d) =
      let rest = dict_set key value d in
      if same entry.0 key then (entry.0, value) ∷ d else entry ∷ rest

  pub get-set_same :
      (key : K) (value : V) (d : List (K × V))
      → same key key ≡ true
      → dict_get key (dict_set key value d) ≡ some value
  get-set_same key value [] h = ground arith
  get-set_same key value (entry ∷ d) h = ground (arith, get-set_same key value d h)

  -- Writing a key leaves what any key held, where the written key was not there before.
  pub get-set_kept :
      (key other : K) (value old : V) (d : List (K × V))
      → dict_get other d ≡ some old
      → same key other ≡ false
      → ((k : K) → same k key ≡ true → same k other ≡ true → same key other ≡ true)
      → dict_get other (dict_set key value d) ≡ some old
  get-set_kept key other value old [] h n t = ground arith
  get-set_kept key other value old (entry ∷ d) h n t =
      ground (arith, get-set_kept key other value old d, t entry.0)
