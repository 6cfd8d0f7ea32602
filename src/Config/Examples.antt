-- ===== src/Config/Examples.antt =====
-- Runs of src/config.rs.
use bind.Common.{◌≡◌, refl, true, false, none, some, List, [], ◌∷◌}
use bind.Config.{BindConfig, codes, from_env, is_enabling, to_lowercase}
use bind.Config.Rules.{Call, get_global, set}

abbrev debugging : BindConfig
debugging = record { debug_mode = true }

abbrev later_calls : List Call
later_calls = get_global none ∷ set debugging ∷ []

on_enables : from_env (some (codes "TRUE")) ≡ debugging
unfolding from_env is_enabling to_lowercase
on_enables = refl

zero_does_not : (from_env (some (codes "0"))).debug_mode ≡ false
unfolding from_env is_enabling to_lowercase
zero_does_not = refl
