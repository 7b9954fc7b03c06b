-- ===== src/Config/Load.antt =====
-- cmd/main/main.go: `loadConfig`, with `ApplyFlareTeeManagerEnv` of pkg/config.
pub mod Laws
use tee_relay_client.Base.{
  Bool, true, false, not, ◌&&◌, Bytes, bytes, bytes_eq, ◌==◌, Option, none, some, if◌then◌else◌,
  Error, new, Result, ok, err, wrapped, then_do,
}
use tee_relay_client.Config.{
  Config, no_address, default, check_address, check_chain_id, check_start_interval, check_queues,
  check_health,
}

-- The environment, `strings.TrimSpace`, and go-ethereum's `Address.UnmarshalText`.
pub record Environment : Type 0 where
  pub flare_tee_manager_variable : Option Bytes
  pub allow_unsafe_urls_variable : Option Bytes
  pub trim_space : Bytes → Bytes
  pub unmarshal_address : Bytes → Result Bytes

module _ (env : Environment) where
  -- From the parsed address on.
  abbrev with_address : Config → Bytes → Result Config
  with_address c address =
      if address == no_address
      then err (new "the variable is the zero address")
      else if not (c.flare_tee_manager == no_address) && not (c.flare_tee_manager == address)
      then err (new "the variable differs from the config file")
      else ok (record c { flare_tee_manager = address })

  abbrev apply_variable : Option Bytes → Config → Result Config
  apply_variable none c = ok c
  apply_variable (some value) c =
      then_do (wrapped "parsing the variable" (env.unmarshal_address (env.trim_space value)))
        λ address. with_address c address

  -- `ApplyFlareTeeManagerEnv`
  unfoldable pub apply_flare_tee_manager_env : Config → Result Config
  apply_flare_tee_manager_env c = apply_variable env.flare_tee_manager_variable c

  -- `if v, ok := os.LookupEnv(allowUnsafeURLsEnv); ok && v == "true"`
  abbrev allow_unsafe : Option Bytes → Config → Config
  allow_unsafe none c = c
  allow_unsafe (some v) c = if v == bytes "true" then record c { allow_unsafe_urls = true } else c

  unfoldable pub apply_unsafe_env : Config → Config
  apply_unsafe_env c = allow_unsafe env.allow_unsafe_urls_variable c

  -- The five checks, in the order of `loadConfig`.
  unfoldable pub check_all : Config → Result (Unit {0})
  check_all c = then_do (wrapped "checking address" (check_address c)) λ u.
      then_do (wrapped "checking chain id" (check_chain_id c)) λ u.
        then_do (wrapped "checking start interval" (check_start_interval c)) λ u.
          then_do (wrapped "checking fdc queues" (check_queues c))
            λ u. wrapped "checking health" (check_health c)

  -- `loadConfig`: `read_to` decodes the file into the configuration that it is given.
  unfoldable pub load_config : (Config → Result Config) → Result Config
  load_config read_to = then_do (wrapped "reading config" (read_to default)) λ file.
      then_do (wrapped "reading manager address from env" (apply_flare_tee_manager_env file))
        λ cfg. then_do (check_all cfg) λ u. ok (apply_unsafe_env cfg)
