-- ===== src/Config/Rules.antt =====
-- What the global configuration of src/config.rs keeps.
use bind.Common.{◌≡◌, refl, Option, none, some, List, [], ◌∷◌, ℕ, err}
use bind.Config.{BindConfig, from_env, global, set_global, already_initialized}

-- The operations on the global configuration; the environment may differ from call to call.
pub data Call : Type 0 where
  get_global : Option (List ℕ) → Call
  set : BindConfig → Call

abbrev pub call : Call → Option BindConfig → Option BindConfig
call (get_global env) lock = (global env lock).1
call (set config) lock = (set_global config lock).1

abbrev pub calls : List Call → Option BindConfig → Option BindConfig
calls [] lock = lock
calls (c ∷ cs) lock = calls cs (call c lock)

call-some : (c : Call) (config : BindConfig) → call c (some config) ≡ some config
unfolding global set_global
call-some (get_global env) config = refl
call-some (set other) config = refl

calls-some : (cs : List Call) (config : BindConfig) → calls cs (some config) ≡ some config
calls-some [] config = refl
calls-some (c ∷ cs) config = rw (call-some c config) (calls-some cs config)

-- Once `global` has returned a configuration, every later call of `global`, after any calls of
-- `global` and `set_global` and with any value of the environment, returns the same one, and every
-- later `set_global` is refused.
pub global_stable :
    (env env' : Option (List ℕ)) (lock : Option BindConfig) (cs : List Call) (other : BindConfig)
    → let (config, lock') = global env lock in
      ((global env' (calls cs lock')).0 ≡ config)
      × ((set_global other (calls cs lock')).0 ≡ err already_initialized)
unfolding global set_global
global_stable env env' none cs other = simp (calls-some cs (from_env env)) (refl, refl)
global_stable env env' (some config) cs other = simp (calls-some cs config) (refl, refl)
