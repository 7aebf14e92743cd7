-- ===== src/Cli/Guard.antt =====
-- The guard of `resolve_config` in crates/svdc-bin/src/main.rs that keeps the OPC UA server, which has no
-- security, on the loopback interface.
use Prim.Native.String.{String}
use text.Mathlib.Text.{◌==◌ as str_eq}
use text.Mathlib.TextEquality.{eq_iff}
use mathlib.Core.Option.{some-injective, none-ne-some}
use svdc.Base.{
  ℕ, zero, suc, ◌+◌, ◌≡◌, refl, sym, ap, ◌∙◌, ltb, Bool, true, false, ◌||◌, Bool-cases, Option,
  none, some, List, [], ◌∷◌, length, get_elem?, get_elem?_lt, Outcome, ok, err, panic, ◌>>=◌,
  ok-injective, panic-ne-ok, err-ne-ok, ◌⊎◌, inl, inr, arith, if-keeps,
}
use svdc.Cli.{
  SocketAddr, is_loopback_addr, Config, ConfigError, help_requested, Cli, unset, with_value,
  opcua_arg, step, arguments, asks_help,
}
use svdc.Cli.Settle.{guarded, settle, settle_after, resolve_config, or_else, unwrap_or, on}

-- a text among the arguments
abbrev pub has : String → List String → Bool
has s [] = false
has s (a ∷ args) = str_eq a s || has s args

has-get_elem? :
    (s : String) (args : List String) (i : ℕ) (a : String)
    → has s args ≡ false
    → get_elem? args i ≡ some a
    → str_eq a s ≡ false
has-get_elem? s [] i a h e = ground arith
has-get_elem? s (b ∷ args) zero a h e = ground arith
has-get_elem? s (b ∷ args) (suc i) a h e = has-get_elem? s args i a (ground arith) e

-- what a step leaves of `cli_allow_insecure_bind`
data Keeps (cli : Cli) : Outcome ConfigError (ℕ × Cli) → Type 0 where
  same : (i' : ℕ) (cli' : Cli) → cli'.insecure ≡ cli.insecure → Keeps cli (ok (i', cli'))
  stopped : (e : ConfigError) → Keeps cli (err e)
  crashed : Keeps cli panic

with_value-Keeps :
    (cli : Cli) (args : List String) (i : ℕ) (msg : String) (store : String → Cli)
    → ((v : String) → (store v).insecure ≡ cli.insecure)
    → Keeps cli (with_value args i msg store)
unfolding with_value
with_value-Keeps cli args i msg store h =
    if-keeps (Keeps cli) _ (stopped _) (value (get_elem? args (i + 1)))
  where
    value :
        (o : Option String) → Keeps cli (elim o [ none ↦ panic | some v ↦ ok (i + 1 + 1, store v) ])
    value none = crashed
    value (some v) = same (i + 1 + 1) (store v) (h v)

opcua_arg-Keeps : (o : Option String) (i : ℕ) (cli : Cli) → Keeps cli (opcua_arg o i cli)
unfolding opcua_arg
opcua_arg-Keeps none i cli = same _ _ refl
opcua_arg-Keeps (some n) i cli = search (if-keeps (Keeps cli), same)

step-Keeps :
    (args : List String) (i : ℕ) (arg : String) (cli : Cli)
    → str_eq arg "--allow-insecure-bind" ≡ false
    → Keeps cli (step args i arg cli)
unfolding step
step-Keeps args i arg cli e = rw e (
    search (if-keeps (Keeps cli), same, stopped, with_value-Keeps cli args i, opcua_arg-Keeps) depth
      12)

finished : (a b : Cli) → Path (Option (Outcome ConfigError Cli)) (some (ok a)) (some (ok b)) → b ≡ a
finished a b e = sym (ok-injective a b (some-injective _ _ e))

not_finished :
    (x : ConfigError) (c : Cli)
    → ¬ Path (Option (Outcome ConfigError Cli)) (some (err x)) (some (ok c))
not_finished x c e = err-ne-ok x c (some-injective _ _ e)

arguments-insecure :
    (fuel : ℕ) (args : List String) (i : ℕ) (cli cli' : Cli)
    → has "--allow-insecure-bind" args ≡ false
    → arguments fuel args i cli ≡ some (ok cli')
    → cli'.insecure ≡ cli.insecure
unfolding arguments
arguments-insecure zero args i cli cli' h e = elim (Bool-cases (ltb i (length args))) [
  | inl q ↦ absurd (none-ne-some _ (rw q at e))
  | inr q ↦ let w : cli' ≡ cli = finished _ _ (rw q at e) in ap (λ (c : Cli). c.insecure) w
]
arguments-insecure (suc fuel) args i cli cli' h e = elim (Bool-cases (ltb i (length args))) [
  | inl q ↦
      let (arg, g) = get_elem?_lt args i (ground arith) in
      after (step args i arg cli)
        (step-Keeps args i arg cli (has-get_elem? "--allow-insecure-bind" args i arg h g))
        (λ i' c. arguments-insecure fuel args i' c cli' h) (rw (q, g) at e)
  | inr q ↦ let w : cli' ≡ cli = finished _ _ (rw q at e) in ap (λ (c : Cli). c.insecure) w
]
  where
    after :
        (r : Outcome ConfigError (ℕ × Cli))
        → Keeps cli r
        → ((i' : ℕ) (c : Cli)
            → arguments fuel args i' c ≡ some (ok cli')
            → cli'.insecure ≡ c.insecure)
        → elim r [
          | ok (i', c) ↦ arguments fuel args i' c
          | err e ↦ some (err e)
          | panic ↦ some panic
        ]
          ≡ some (ok cli')
        → cli'.insecure ≡ cli.insecure
    after _ (same i' c k) rest e = rest i' c e ∙ k
    after _ (stopped x) rest e = absurd (not_finished x cli' e)
    after _ crashed rest e = absurd (panic-ne-ok cli' (some-injective _ _ e))

-- a configuration whose bind is on the loopback interface, or allowed by `insecure`
data Guarded (insecure : Bool) : Outcome ConfigError Config → Type 0 where
  accepted :
      (config : Config)
      → ((addr : SocketAddr)
          → config.opcua_bind ≡ some addr
          → (is_loopback_addr addr ≡ true) ⊎ (insecure ≡ true))
      → Guarded insecure (ok config)
  refused : (e : ConfigError) → Guarded insecure (err e)
  crashed : Guarded insecure panic

guarded-Guarded :
    (insecure : Bool) (o : Option SocketAddr) (config : Config)
    → config.opcua_bind ≡ o
    → Guarded insecure (guarded o insecure config)
unfolding guarded
guarded-Guarded insecure none config p = accepted config λ addr h. ground arith
guarded-Guarded true (some a) config p = elim (Bool-cases (is_loopback_addr a)) [
  | inl e ↦ rw e (accepted config λ addr h. inr refl)
  | inr e ↦ rw e (accepted config λ addr h. inr refl)
]
guarded-Guarded false (some a) config p = elim (Bool-cases (is_loopback_addr a)) [
  | inl e ↦ rw e (accepted config λ addr h. inl (ground arith))
  | inr e ↦ rw e (refused _)
]

>>=-Guarded {ℓ} :
    {A : Type ℓ} {insecure : Bool} (m : Outcome ConfigError A) (f : A → Outcome ConfigError Config)
    → ((a : A) → Guarded insecure (f a))
    → Guarded insecure (m >>= f)
>>=-Guarded (ok a) f h = h a
>>=-Guarded (err e) f h = refused e
>>=-Guarded panic f h = crashed

Guarded-ok :
    {insecure : Bool} {r : Outcome ConfigError Config} (config : Config) (addr : SocketAddr)
    → Guarded insecure r
    → r ≡ ok config
    → config.opcua_bind ≡ some addr
    → (is_loopback_addr addr ≡ true) ⊎ (insecure ≡ true)
Guarded-ok config addr (accepted c g) e h =
    g addr (ap (λ (x : Config). x.opcua_bind) (ok-injective _ _ e) ∙ h)
Guarded-ok config addr (refused x) e h = absurd (err-ne-ok x config e)
Guarded-ok config addr crashed e h = absurd (panic-ne-ok config e)

on-one : (v : Option String) → unwrap_or (or_else none (on v)) false ≡ true → v ≡ some "1"
on-one none e = ground arith
on-one (some v) e = ground (arith, eq_iff v "1")

module _ (parse : String → Option SocketAddr) (env : String → Option String) where
  settle-Guarded :
      (cli : Cli)
      → Guarded
          (unwrap_or (or_else cli.insecure (on (env "SVDC_ALLOW_INSECURE_BIND"))) false)
          (settle parse env cli)
  unfolding settle
  settle-Guarded cli = search (if-keeps (Guarded _), refused, >>=-Guarded, guarded-Guarded) depth 9

  settle_after-ok :
      (o : Option (Outcome ConfigError Cli)) (config : Config)
      → settle_after parse env o ≡ some (ok config)
      → (cli : Cli) × (o ≡ some (ok cli)) × (settle parse env cli ≡ ok config)
  unfolding settle_after
  settle_after-ok none config e = absurd (none-ne-some _ e)
  settle_after-ok (some (ok cli)) config e = (cli, refl, some-injective _ _ e)
  settle_after-ok (some (err x)) config e = absurd (err-ne-ok x config (some-injective _ _ e))
  settle_after-ok (some panic) config e = absurd (panic-ne-ok config (some-injective _ _ e))

  -- `resolve_config` returns no configuration whose OPC UA server is bound outside the loopback
  -- interface, unless `--allow-insecure-bind` is among the arguments or
  -- SVDC_ALLOW_INSECURE_BIND is 1 in the environment.
  pub resolve_config-guarded :
      (args : List String) (config : Config) (addr : SocketAddr)
      → resolve_config parse env args ≡ some (ok config)
      → config.opcua_bind ≡ some addr
      → (is_loopback_addr addr ≡ true)
        ⊎ ((has "--allow-insecure-bind" args ≡ true) ⊎ (env "SVDC_ALLOW_INSECURE_BIND" ≡ some "1"))
  unfolding resolve_config
  resolve_config-guarded args config addr e h = elim (Bool-cases (asks_help args)) [
    | inl q ↦ absurd (err-ne-ok help_requested config (some-injective _ _ (rw q at e)))
    | inr q ↦ elim (Bool-cases (has "--allow-insecure-bind" args)) [
      | inl f ↦ inr (inl f)
      | inr f ↦
          let (cli, o, s) = settle_after-ok _ config (rw q at e) in
          let k = arguments-insecure (length args) args 1 unset cli f o in
          elim (Guarded-ok config addr (settle-Guarded cli) s h) [
            | inl l ↦ inl l
            | inr a ↦ inr (inr (on-one (env "SVDC_ALLOW_INSECURE_BIND") (rw k at a)))
          ]
    ]
  ]
