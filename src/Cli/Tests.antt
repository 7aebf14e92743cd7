-- ===== src/Cli/Tests.antt =====
-- The command line on concrete arguments.
use Prim.Native.String.{String}
use text.Mathlib.Text.{◌==◌ as str_eq}
use svdc.Base.{
  ◌≡◌, refl, ◌≢◌, true, false, if◌then◌else◌, Option, none, some, List, [], ◌∷◌, Outcome, ok, err,
  panic, ◌⊎◌,
}
use svdc.Cli.{
  SocketAddr, v4, is_loopback_addr, Config, ConfigError, missing_value, insecure_bind_refused,
}
use svdc.Cli.Settle.{resolve_config}
use svdc.Cli.Total.{resolve_config-returns}
use svdc.Cli.Guard.{has, resolve_config-guarded}

abbrev empty_env : String → Option String
empty_env name = none

-- a parser that knows two addresses
abbrev two_addresses : String → Option SocketAddr
two_addresses s =
    if str_eq s "127.0.0.1:8080"
    then some (v4 127 0 0 1 8080)
    else if str_eq s "0.0.0.0:4840"
    then some (v4 0 0 0 0 4840)
    else none

abbrev exposed : List String
exposed = "svdc" ∷ "--no-ui" ∷ "--enable-opcua" ∷ "0.0.0.0:4840" ∷ "--allow-insecure-bind" ∷ []

abbrev exposed_config : Config
exposed_config = record {
  ui_enabled = false;
  ui_bind = v4 127 0 0 1 8080;
  operational_path = none;
  audit_log_path = none;
  ingress_udp = none;
  enable_l0_demo = false;
  opcua_bind = some (v4 0 0 0 0 4840);
  allow_insecure_bind = true;
}

exposed_accepted : resolve_config two_addresses empty_env exposed ≡ some (ok exposed_config)
unfolding resolve_config
exposed_accepted = refl

exposed_refused :
    resolve_config two_addresses empty_env
      ("svdc" ∷ "--no-ui" ∷ "--enable-opcua" ∷ "0.0.0.0:4840" ∷ [])
    ≡ some (err (insecure_bind_refused (v4 0 0 0 0 4840)))
unfolding resolve_config is_loopback_addr
exposed_refused = refl

bind_without_value :
    resolve_config two_addresses empty_env ("svdc" ∷ "--ui-bind" ∷ [])
    ≡ some (err (missing_value "--ui-bind requires an address"))
unfolding resolve_config
bind_without_value = refl

resolve_config-returns_example :
    (r : Outcome ConfigError Config) × (resolve_config two_addresses empty_env
        ("svdc" ∷ "--what" ∷ [])
      ≡ some r)
    × (r ≢ panic)
resolve_config-returns_example =
    resolve_config-returns two_addresses empty_env ("svdc" ∷ "--what" ∷ [])

resolve_config-guarded_example :
    (is_loopback_addr (v4 0 0 0 0 4840) ≡ true)
    ⊎ ((has "--allow-insecure-bind" exposed ≡ true)
        ⊎ (empty_env "SVDC_ALLOW_INSECURE_BIND" ≡ some "1"))
resolve_config-guarded_example =
    resolve_config-guarded two_addresses empty_env exposed exposed_config (v4 0 0 0 0 4840)
      exposed_accepted refl
