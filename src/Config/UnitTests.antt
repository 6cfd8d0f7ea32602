-- ===== src/Config/UnitTests.antt =====
-- The unit tests of src/config.rs.
use bind.Common.{◌≡◌, refl, true, false}
use bind.Config.{BindConfig, default, is_debug, rule6_enabled, catastrophic_rules_enabled}

abbrev TestDefaultConfigIsProduction : Type 0
TestDefaultConfigIsProduction =
    (is_debug default ≡ false)
    × (rule6_enabled default ≡ true)
    × (catastrophic_rules_enabled default ≡ true)

abbrev debug : BindConfig
debug = record { debug_mode = true }

abbrev TestDebugModeSkipsRule6 : Type 0
TestDebugModeSkipsRule6 =
    (is_debug debug ≡ true)
    × (rule6_enabled debug ≡ false)
    × (catastrophic_rules_enabled debug ≡ true)

abbrev TestProductionModeEnforcesAllRules : Type 0
TestProductionModeEnforcesAllRules =
    let config : BindConfig = record { debug_mode = false } in
    (is_debug config ≡ false)
    × (rule6_enabled config ≡ true)
    × (catastrophic_rules_enabled config ≡ true)

abbrev TestSetGlobal : Type 0
TestSetGlobal = (is_debug debug ≡ true) × (rule6_enabled debug ≡ false)

tests_hold :
    TestDefaultConfigIsProduction × TestDebugModeSkipsRule6 × TestProductionModeEnforcesAllRules
    × TestSetGlobal
unfolding is_debug rule6_enabled catastrophic_rules_enabled
tests_hold = ((refl, refl, refl), (refl, refl, refl), (refl, refl, refl), (refl, refl))
