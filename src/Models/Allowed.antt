-- ===== src/Models/Allowed.antt =====
-- No task goes to a banned model (config/model_routing.py).
use nemoclaw_smb.Base.{
  ◌≡◌, String, true, false, some, List, [], ◌∷◌, arith, has_part, member, str_eq_iff,
}
use nemoclaw_smb.Base.Dict.{Dict, get}
use nemoclaw_smb.Base.Act.{ok}
use nemoclaw_smb.Platform.{Platform}
use nemoclaw_smb.Models.{
  all_allowed, assert_no_chinese_models, banned_origin_substrings, has_none, model_routing,
  route_for,
}

has_none_lem :
    (banned : List String) (text q : String)
    → has_none banned text ≡ true
    → member q banned ≡ true
    → has_part q text ≡ false
unfolding has_none member
has_none_lem [] text q h there = ground arith
has_none_lem (b ∷ bs) text q h there = ground (arith, str_eq_iff q b, has_none_lem bs text q)

module _ ⦃p : Platform⦄ where
  all_allowed_lem :
      (d : Dict String) (task model : String)
      → all_allowed d ≡ true
      → get task d ≡ some model
      → has_none banned_origin_substrings (p.lower model) ≡ true
  unfolding all_allowed get
  all_allowed_lem [] task model h here = ground arith
  all_allowed_lem ((t, m) ∷ d) task model h here = ground (arith, all_allowed_lem d task model)

  -- Where the module could be imported, which asserts it, no task is routed to a model whose name, in
  -- lower case, has one of the banned parts.
  pub route_for_allowed :
      (task model q : String)
      → assert_no_chinese_models ≡ true
      → route_for task ≡ ok model
      → member q banned_origin_substrings ≡ true
      → has_part q (p.lower model) ≡ false
  unfolding assert_no_chinese_models route_for
  route_for_allowed task model q checked routed banned =
      has_none_lem banned_origin_substrings (p.lower model) q
        (all_allowed_lem model_routing task model checked (ground arith)) banned
