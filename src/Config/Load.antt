-- ===== src/Config/Load.antt =====
-- How internal/config/config.go gets its configuration: reading the file, gopkg.in/yaml.v3, godotenv and
-- the environment are parameters.
use wb_l.Base.Decimal.{decimal}
use wb_l.Base.Text.{codes, Text}
use wb_l.DeadLetters.{Bytes}
use wb_l.Base.{none, ◌≡◌, Option, ◌⊎◌, inl, refl, ◌∷◌, inr, some}
use wb_l.Config.{config_validate, Config}

unfoldable pub load_env : {E : Type 0} → Option E → (getenv : Text → Text) → Config → Config
load_env (some e) getenv c = c
load_env none getenv c = record c {
  database = record c.database {
    user = getenv (codes "POSTGRES_USER");
    password = getenv (codes "POSTGRES_PASSWORD");
    database = getenv (codes "POSTGRES_DB");
  };
}

-- `env` is the error of `godotenv.Load`.
unfoldable pub load_config :
    {E : Type 0}
    → (read_file : Text → Bytes ⊎ E) → (unmarshal : Bytes → Config ⊎ E) → (env : Option E)
    → (getenv : Text → Text) → (path : Text) → Config ⊎ E
unfolding load_env
load_config read_file unmarshal env getenv path = elim (read_file path) [
  | inr e ↦ inr e
  | inl bytes ↦ elim (unmarshal bytes) [
    | inr e ↦ inr e
    | inl config ↦ inl (load_env env getenv config)
  ]
]

-- `(*Config).GetServerAddress`
unfoldable pub get_server_address : Config → Text
unfolding decimal
get_server_address c = b':' ∷ decimal c.server.port

-- The environment does not decide whether a configuration is valid.
pub config_validate-load_env :
    {E : Type 0} (env : Option E) (getenv : Text → Text) (c : Config)
    → config_validate (load_env env getenv c) ≡ config_validate c
unfolding config_validate load_env
config_validate-load_env none getenv c = refl
config_validate-load_env (some e) getenv c = refl
