-- ===== src/Cli.antt =====
-- The command line of the daemon: `Config`, `ConfigError`, `is_loopback_addr` and the loop over the
-- arguments of `resolve_config` in crates/svdc-bin/src/main.rs. `SocketAddr` is the standard library's;
-- the paths are the texts they are made from.
pub mod Settle
pub mod Total
pub mod Guard
mod Tests
use Prim.Native.String.{String}
use text.Mathlib.Text.{◌==◌ as str_eq, starts_with, find?}
use svdc.Base.{
  ℕ, zero, suc, ◌+◌, ltb, leb, ◌==◌, if◌then◌else◌, Bool, true, false, ◌&&◌, ◌||◌, Option, none,
  some, List, [], ◌∷◌, length, get_elem?, Outcome, ok, err, panic,
}

-- `std::net::SocketAddr`: the four octets or the eight segments of the address, and the port
pub data SocketAddr : Type 0 where
  v4 : (a b c d port : ℕ) → SocketAddr
  v6 : (segments : List ℕ) (port : ℕ) → SocketAddr

abbrev is_v6_loopback : List ℕ → Bool
is_v6_loopback (s ∷ []) = s == 1
is_v6_loopback (s ∷ rest) = (s == 0) && is_v6_loopback rest
is_v6_loopback [] = false

-- 127.0.0.0/8 or `::1`
unfoldable pub is_loopback_addr : SocketAddr → Bool
is_loopback_addr (v4 a b c d port) = a == 127
is_loopback_addr (v6 segments port) = (length segments == 8) && is_v6_loopback segments

pub record Config : Type 0 where
  pub ui_enabled : Bool
  pub ui_bind : SocketAddr
  pub operational_path : Option String
  pub audit_log_path : Option String
  pub ingress_udp : Option SocketAddr
  pub enable_l0_demo : Bool
  pub opcua_bind : Option SocketAddr
  pub allow_insecure_bind : Bool

pub data ConfigError : Type 0 where
  help_requested : ConfigError
  mutually_exclusive missing_value unknown_arg bad_addr : String → ConfigError
  insecure_bind_refused : SocketAddr → ConfigError

-- the variables that the loop assigns
pub record Cli : Type 0 where
  pub ui : Option Bool
  pub bind : Option String
  pub op_path : Option String
  pub audit_path : Option String
  pub ingress : Option String
  pub l0_demo : Option Bool
  pub opcua : Option (Option String)
  pub insecure : Option Bool

abbrev pub unset : Cli
unset = record {
  ui = none;
  bind = none;
  op_path = none;
  audit_path = none;
  ingress = none;
  l0_demo = none;
  opcua = none;
  insecure = none;
}

-- `matches!(o, Some(b))`
abbrev pub is_set : Bool → Option Bool → Bool
is_set b none = false
is_set true (some v) = v
is_set false (some v) = if v then false else true

abbrev pub exclusive : String
exclusive = "CLI options --ui and --no-ui are mutually exclusive"

-- an option with a value: the index after it, and the variables with the value stored
unfoldable pub with_value :
    List String → ℕ → String → (String → Cli) → Outcome ConfigError (ℕ × Cli)
with_value args i msg store =
    if leb (length args) (i + 1)
    then err (missing_value msg)
    else elim (get_elem? args (i + 1)) [ none ↦ panic | some v ↦ ok (i + 1 + 1, store v) ]

abbrev has_colon : String → Bool
has_colon s = elim (find? s ":") [ none ↦ false | some _ ↦ true ]

-- an argument that `--enable-opcua` takes as its address
unfoldable pub looks_like_addr : String → Bool
looks_like_addr n = has_colon n && (if starts_with n "-" then false else true)

-- the match on the argument after the flag
unfoldable pub opcua_arg : Option String → ℕ → Cli → Outcome ConfigError (ℕ × Cli)
unfolding looks_like_addr
opcua_arg none i cli = ok (i + 1, record cli { opcua = some none })
opcua_arg (some n) i cli =
    if looks_like_addr n
    then ok (i + 1 + 1, record cli { opcua = some (some n) })
    else ok (i + 1, record cli { opcua = some none })

-- the body of the loop, at the argument of index `i`
unfoldable pub step : List String → ℕ → String → Cli → Outcome ConfigError (ℕ × Cli)
unfolding with_value opcua_arg
step args i arg cli =
    if str_eq arg "--ui"
    then (if is_set false cli.ui
        then err (mutually_exclusive exclusive)
        else ok (i + 1, record cli { ui = some true }))
    else if str_eq arg "--no-ui"
    then (if is_set true cli.ui
        then err (mutually_exclusive exclusive)
        else ok (i + 1, record cli { ui = some false }))
    else if str_eq arg "--ui-bind"
    then with_value args i "--ui-bind requires an address" (λ v. record cli { bind = some v })
    else if str_eq arg "--operational-config"
    then with_value args i "--operational-config requires a path"
        (λ v. record cli { op_path = some v })
    else if str_eq arg "--audit-log"
    then with_value args i "--audit-log requires a path" (λ v. record cli { audit_path = some v })
    else if str_eq arg "--ingress-udp"
    then with_value args i "--ingress-udp requires an addr:port"
        (λ v. record cli { ingress = some v })
    else if str_eq arg "--enable-l0-demo"
    then ok (i + 1, record cli { l0_demo = some true })
    else if str_eq arg "--enable-opcua"
    then opcua_arg (get_elem? args (i + 1)) i cli
    else if str_eq arg "--allow-insecure-bind"
    then ok (i + 1, record cli { insecure = some true })
    else err (unknown_arg arg)

-- `while i < args.len()`, with fuel for the rounds; `none` is a loop that is out of fuel
unfoldable pub arguments : ℕ → List String → ℕ → Cli → Option (Outcome ConfigError Cli)
unfolding step
arguments zero args i cli = if ltb i (length args) then none else some (ok cli)
arguments (suc fuel) args i cli =
    if ltb i (length args)
    then elim (get_elem? args i) [
      | none ↦ some panic
      | some arg ↦ elim (step args i arg cli) [
        | ok (i', cli') ↦ arguments fuel args i' cli'
        | err e ↦ some (err e)
        | panic ↦ some panic
      ]
    ]
    else some (ok cli)

-- `args.iter().any(|a| a == "--help" || a == "-h")`
abbrev pub asks_help : List String → Bool
asks_help [] = false
asks_help (a ∷ args) = (str_eq a "--help" || str_eq a "-h") || asks_help args
