-- ===== src/Cli/Settle.antt =====
-- `resolve_config` of crates/svdc-bin/src/main.rs after the loop: the environment, the defaults, the
-- addresses and the guard. `parse` is the standard library's parser of socket addresses.
use Prim.Native.String.{String}
use text.Mathlib.Text.{◌==◌ as str_eq}
use svdc.Base.{
  if◌then◌else◌, Bool, true, false, ◌&&◌, Option, none, some, List, length, Outcome, ok, err, ◌>>=◌,
}
use svdc.Cli.{
  SocketAddr, v4, is_loopback_addr, Config, ConfigError, help_requested, mutually_exclusive,
  bad_addr, insecure_bind_refused, Cli, unset, arguments, asks_help,
}

-- the value that is there first
abbrev pub or_else {ℓ} : {A : Type ℓ} → Option A → Option A → Option A
or_else none b = b
or_else (some a) b = some a

abbrev pub unwrap_or {ℓ} : {A : Type ℓ} → Option A → A → A
unwrap_or none d = d
unwrap_or (some a) d = a

abbrev pub is_some {ℓ} : {A : Type ℓ} → Option A → Bool
is_some none = false
is_some (some a) = true

-- `.filter(|v| v == "1").map(|_| true)`
abbrev pub on : Option String → Option Bool
on none = none
on (some v) = if str_eq v "1" then some true else none

abbrev pub exclusive_env : String
exclusive_env = "Environment variables SVDC_UI and SVDC_NO_UI are mutually exclusive"

unfoldable pub ui_enabled : Option Bool → (env_ui env_no_ui : Bool) → Bool
ui_enabled (some v) env_ui env_no_ui = v
ui_enabled none env_ui env_no_ui = if env_no_ui then false else true

abbrev some_inner : Option String → Option (Option String)
some_inner none = none
some_inner (some v) = some (some v)

-- the guard of ADR-0017 before the configuration is returned
unfoldable pub guarded : Option SocketAddr → Bool → Config → Outcome ConfigError Config
unfolding is_loopback_addr
guarded none allow_insecure_bind config = ok config
guarded (some addr) allow_insecure_bind config =
    if (if is_loopback_addr addr then false else true)
      && (if allow_insecure_bind then false else true)
    then err (insecure_bind_refused addr)
    else ok config

-- `.map_err(|_| ConfigError::BadAddr(s))`
abbrev pub or_bad : String → Option SocketAddr → Outcome ConfigError SocketAddr
or_bad s none = err (bad_addr s)
or_bad s (some addr) = ok addr

module _ (parse : String → Option SocketAddr) where
  abbrev pub parsed : String → Outcome ConfigError SocketAddr
  parsed s = or_bad s (parse s)

  unfoldable pub parsed_option : Option String → Outcome ConfigError (Option SocketAddr)
  parsed_option none = ok none
  parsed_option (some s) = do addr ← parsed s; ok (some addr)

  -- the flag without a value stands for 127.0.0.1:4840
  unfoldable pub opcua_of : Option (Option String) → Outcome ConfigError (Option SocketAddr)
  opcua_of none = ok none
  opcua_of (some none) = ok (some (v4 127 0 0 1 4840))
  opcua_of (some (some s)) = do addr ← parsed s; ok (some addr)

module _ (parse : String → Option SocketAddr) (env : String → Option String) where
  unfoldable pub settle : Cli → Outcome ConfigError Config
  unfolding guarded parsed_option opcua_of ui_enabled
  settle cli =
      let env_ui = is_some (on (env "SVDC_UI")) in
      let env_no_ui = is_some (on (env "SVDC_NO_UI")) in
      if env_ui && env_no_ui then err (mutually_exclusive exclusive_env) else do
        ui_bind ← parsed parse (unwrap_or (or_else cli.bind (env "SVDC_UI_BIND")) "127.0.0.1:8080")
        ingress_udp ← parsed_option parse (or_else cli.ingress (env "SVDC_INGRESS_UDP"))
        opcua_bind ← opcua_of parse (or_else cli.opcua (some_inner (env "SVDC_OPCUA_BIND")))
        let allow_insecure_bind =
            unwrap_or (or_else cli.insecure (on (env "SVDC_ALLOW_INSECURE_BIND"))) false
        guarded opcua_bind allow_insecure_bind (record {
          ui_enabled = ui_enabled cli.ui env_ui env_no_ui;
          ui_bind = ui_bind;
          operational_path = or_else cli.op_path (env "SVDC_OPERATIONAL_CONFIG");
          audit_log_path = or_else cli.audit_path (env "SVDC_AUDIT_LOG");
          ingress_udp = ingress_udp;
          enable_l0_demo = unwrap_or (or_else cli.l0_demo (on (env "SVDC_ENABLE_L0_DEMO"))) false;
          opcua_bind = opcua_bind;
          allow_insecure_bind = allow_insecure_bind;
        })

  -- the end of the loop, before the rest of the function
  unfoldable pub settle_after :
      Option (Outcome ConfigError Cli) → Option (Outcome ConfigError Config)
  settle_after none = none
  settle_after (some r) = some (r >>= settle)

  -- the fuel is one round for each argument
  unfoldable pub resolve_config : List String → Option (Outcome ConfigError Config)
  unfolding arguments settle_after settle
  resolve_config args =
      if asks_help args
      then some (err help_requested)
      else settle_after (arguments (length args) args 1 unset)
