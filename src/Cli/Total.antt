-- ===== src/Cli/Total.antt =====
-- `resolve_config` of crates/svdc-bin/src/main.rs on every command line: the loop ends, and no index
-- into the arguments is out of range.
use Prim.Native.String.{String}
use svdc.Base.{
  fine, failed, ℕ, zero, suc, ◌+◌, ◌<◌, ◌≤◌, ◌≡◌, refl, ltb, leb, Bool, false, Bool-cases, Option,
  none, some, List, length, Outcome, ok, err, panic, ◌>>=◌, inl, inr, arith, get_elem?_lt, if-keeps,
  NoPanic, NoPanic-ne, >>=-NoPanic, ◌≢◌,
}
use svdc.Cli.{
  SocketAddr, Config, ConfigError, help_requested, bad_addr, missing_value, Cli, with_value,
  opcua_arg, step, arguments, looks_like_addr, asks_help, unset,
}
use svdc.Cli.Settle.{
  parsed, parsed_option, opcua_of, or_bad, guarded, settle_after, settle, resolve_config,
}

-- a step goes forward, or stops with an error
data Advances (i : ℕ) : Outcome ConfigError (ℕ × Cli) → Type 0 where
  forward : (i' : ℕ) (cli : Cli) → i < i' → Advances i (ok (i', cli))
  stopped : (e : ConfigError) → Advances i (err e)

with_value-Advances :
    (args : List String) (i : ℕ) (msg : String) (store : String → Cli)
    → Advances i (with_value args i msg store)
unfolding with_value
with_value-Advances args i msg store = elim (Bool-cases (leb (length args) (i + 1))) [
  | inl e ↦ rw e (stopped (missing_value msg))
  | inr e ↦
      let (v, q) = get_elem?_lt args (i + 1) (ground arith) in
      rw (e, q) (forward (i + 1 + 1) (store v) (omega arith))
]

one_on : (i : ℕ) (cli : Cli) → Advances i (ok (i + 1, cli))
one_on i cli = forward (i + 1) cli (omega arith)

opcua_arg-Advances : (o : Option String) (i : ℕ) (cli : Cli) → Advances i (opcua_arg o i cli)
unfolding opcua_arg
opcua_arg-Advances none i cli = one_on i _
opcua_arg-Advances (some n) i cli =
    if-keeps (Advances i) (looks_like_addr n) (forward (i + 1 + 1) _ (omega arith)) (one_on i _)

step-Advances :
    (args : List String) (i : ℕ) (arg : String) (cli : Cli) → Advances i (step args i arg cli)
unfolding step
step-Advances args i arg cli =
    search
      (if-keeps (Advances i), stopped, one_on i, with_value-Advances args i, opcua_arg-Advances)
      depth 12

-- a result is there, and it is no panic
abbrev Ends : Option (Outcome ConfigError Cli) → Type 0
Ends none = ⊥
Ends (some r) = NoPanic r

pub arguments-Ends :
    (fuel : ℕ) (args : List String) (i : ℕ) (cli : Cli)
    → length args ≤ fuel + i
    → Ends (arguments fuel args i cli)
unfolding arguments
arguments-Ends zero args i cli h =
    let e : ltb i (length args) ≡ false = ground arith in rw e (fine cli)
arguments-Ends (suc fuel) args i cli h = elim (Bool-cases (ltb i (length args))) [
  | inl e ↦
      let (arg, q) = get_elem?_lt args i (ground arith) in
      rw (e, q)
        (after (step args i arg cli) (step-Advances args i arg cli)
          (λ i' cli' p. arguments-Ends fuel args i' cli' p))
  | inr e ↦ rw e (fine cli)
]
  where
    after :
        (r : Outcome ConfigError (ℕ × Cli))
        → Advances i r
        → ((i' : ℕ) (cli' : Cli) → length args ≤ fuel + i' → Ends (arguments fuel args i' cli'))
        → Ends (elim r [
          | ok (i', cli') ↦ arguments fuel args i' cli'
          | err e ↦ some (err e)
          | panic ↦ some panic
        ])
    after _ (forward i' cli' a) rest = rest i' cli' (omega arith)
    after _ (stopped e) rest = failed e

or_bad-NoPanic : (s : String) (o : Option SocketAddr) → NoPanic (or_bad s o)
or_bad-NoPanic s none = failed (bad_addr s)
or_bad-NoPanic s (some addr) = fine addr

guarded-NoPanic :
    (o : Option SocketAddr) (insecure : Bool) (config : Config)
    → NoPanic (guarded o insecure config)
unfolding guarded
guarded-NoPanic none insecure config = fine config
guarded-NoPanic (some addr) insecure config =
    search (if-keeps (NoPanic {E = ConfigError} {A = Config}), failed, fine)

module _ (parse : String → Option SocketAddr) (env : String → Option String) where
  parsed-NoPanic : (s : String) → NoPanic (parsed parse s)
  parsed-NoPanic s = or_bad-NoPanic s (parse s)

  parsed_option-NoPanic : (o : Option String) → NoPanic (parsed_option parse o)
  unfolding parsed_option
  parsed_option-NoPanic none = fine none
  parsed_option-NoPanic (some s) = >>=-NoPanic (parsed-NoPanic s) λ a. fine (some a)

  opcua_of-NoPanic : (o : Option (Option String)) → NoPanic (opcua_of parse o)
  unfolding opcua_of
  opcua_of-NoPanic none = fine none
  opcua_of-NoPanic (some none) = fine _
  opcua_of-NoPanic (some (some s)) = >>=-NoPanic (parsed-NoPanic s) λ a. fine (some a)

  settle-NoPanic : (cli : Cli) → NoPanic (settle parse env cli)
  unfolding settle
  settle-NoPanic cli =
      search
        (
          if-keeps (NoPanic {E = ConfigError} {A = Config}),
          failed,
          >>=-NoPanic,
          parsed-NoPanic,
          parsed_option-NoPanic,
          opcua_of-NoPanic,
          guarded-NoPanic,
        )
        depth 9

  after :
      (o : Option (Outcome ConfigError Cli))
      → Ends o
      → (r : Outcome ConfigError Config) × (settle_after parse env o ≡ some r) × (r ≢ panic)
  unfolding settle_after
  after none e = absurd e
  after (some r) e = (r >>= settle parse env, refl, NoPanic-ne (>>=-NoPanic e settle-NoPanic))

  -- `resolve_config` returns on every command line, whatever the environment and the parser of
  -- addresses: with a round of fuel for each argument the loop does not run out of it, and no access to
  -- an argument is out of range.
  pub resolve_config-returns :
      (args : List String)
      → (r : Outcome ConfigError Config) × (resolve_config parse env args ≡ some r) × (r ≢ panic)
  unfolding resolve_config
  resolve_config-returns args = elim (Bool-cases (asks_help args)) [
    | inl e ↦ (err help_requested, rw e refl, NoPanic-ne (failed help_requested))
    | inr e ↦ rw e (after _ (arguments-Ends (length args) args 1 unset (omega arith)))
  ]
