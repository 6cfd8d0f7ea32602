-- ===== src/Config.antt =====
-- src/config.rs: the debug mode, read once from the environment, and the global configuration.
-- The environment variable is an argument; `OnceLock` is an option that is set at most once. The
-- warning banner is left out.
pub mod Rules
mod Examples
mod UnitTests
use bind.Common.{
  ℕ, ◌+◌, Bool, true, false, not, ◌&&◌, ◌||◌, Option, none, some, List, [], ◌∷◌, map, ◌==◌, leb,
  if◌then◌else◌, Result, ok, err,
}
use bind.Common.Bytes.{bytes_eq}
use Prim.Native.Char.{code}
use Prim.Native.String.{String}

abbrev pub codes : String → List ℕ
codes String.[] = []
codes (String.◌∷◌ c s) = code c ∷ codes s

-- `to_lowercase` on a code point. Outside ASCII no letter has one of the letters of the four words
-- below for its lower case, so the comparison with them does not depend on it.
unfoldable pub to_lowercase : ℕ → ℕ
to_lowercase c = if leb b'A' c && leb c b'Z' then c + 32 else c

pub record BindConfig : Type 0 where
  pub debug_mode : Bool

-- `matches!(v.to_lowercase().as_str(), "1" | "true" | "yes" | "on")`
unfoldable pub is_enabling : List ℕ → Bool
unfolding to_lowercase
is_enabling v =
    let w = map to_lowercase v in
    bytes_eq w (codes "1")
    || (bytes_eq w (codes "true") || (bytes_eq w (codes "yes") || bytes_eq w (codes "on")))

-- `BindConfig::from_env`; `none` is a variable that is not set (or is not Unicode).
unfoldable pub from_env : Option (List ℕ) → BindConfig
from_env none = record { debug_mode = false }
from_env (some v) = record { debug_mode = is_enabling v }

-- `BindConfig::default`
abbrev pub default : BindConfig
default = record { debug_mode = false }

-- `BindConfig::global`: the configuration, and the `OnceLock` after the call.
unfoldable pub global : Option (List ℕ) → Option BindConfig → BindConfig × Option BindConfig
global env none = (from_env env, some (from_env env))
global env (some config) = (config, some config)

pub data AlreadyInitialized : Type 0 where
  already_initialized : AlreadyInitialized

-- `BindConfig::set_global`: the result, and the `OnceLock` after the call.
unfoldable pub set_global :
    BindConfig → Option BindConfig → Result AlreadyInitialized (Unit {0}) × Option BindConfig
set_global config none = (ok tt, some config)
set_global config (some old) = (err already_initialized, some old)

-- `BindConfig::is_debug`
unfoldable pub is_debug : BindConfig → Bool
is_debug c = c.debug_mode

-- `BindConfig::rule6_enabled`
unfoldable pub rule6_enabled : BindConfig → Bool
rule6_enabled c = not c.debug_mode

-- `BindConfig::catastrophic_rules_enabled`
unfoldable pub catastrophic_rules_enabled : BindConfig → Bool
catastrophic_rules_enabled c = true
