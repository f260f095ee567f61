-- ===== src/Config.antt =====
-- internal/config/config.go: the configuration from the environment, which is a function that gives ""
-- for a variable that is not set. The search for a file .env, which sets variables, is left out.
use Prim.Native.String.{String}
use text.Mathlib.Text.{◌==◌ as str_eq}
use stat_tree_server.Base.{Bool, true, false, ◌||◌, Option, none, some, if◌then◌else◌}

pub record ServerConfig : Type 0 where
  pub grpc_port : String
  pub gateway_port : String

pub record DatabaseConfig : Type 0 where
  pub host : String
  pub port : String
  pub user : String
  pub password : String
  pub db_name : String
  pub ssl_mode : String
  pub schema : String

pub record AuthSettings : Type 0 where
  pub enabled : Bool
  pub jwks_url : String
  pub issuer : String
  pub audience : String

pub record ScraperConfig : Type 0 where
  pub cron : String
  pub seed_on_boot : Bool

pub record Config : Type 0 where
  pub server : ServerConfig
  pub database : DatabaseConfig
  pub auth : AuthSettings
  pub scraper : ScraperConfig
  pub redis_url : String

unfoldable pub get_env : (String → String) → String → String → String
get_env env key default_value = if str_eq (env key) "" then default_value else env key

-- strconv.ParseBool
unfoldable pub parse_bool : String → Option Bool
parse_bool s =
    if str_eq s "1"
      || str_eq s "t"
      || str_eq s "T"
      || str_eq s "true"
      || str_eq s "TRUE"
      || str_eq s "True"
    then some true
    else if str_eq s "0"
        || str_eq s "f"
        || str_eq s "F"
        || str_eq s "false"
        || str_eq s "FALSE"
        || str_eq s "False"
    then some false
    else none

abbrev pub or_default : Bool → Option Bool → Bool
or_default d none = d
or_default d (some b) = b

unfoldable pub get_env_as_bool : (String → String) → String → Bool → Bool
unfolding parse_bool
get_env_as_bool env key default_value =
    if str_eq (env key) "" then default_value else or_default default_value (parse_bool (env key))

unfoldable pub load : (String → String) → Config
unfolding get_env get_env_as_bool
load env = record {
  server = record {
    grpc_port = get_env env "GRPC_PORT" "9090";
    gateway_port = get_env env "GATEWAY_PORT" "8080";
  };
  database = record {
    host = get_env env "DB_HOST" "localhost";
    port = get_env env "DB_PORT" "5432";
    user = get_env env "DB_USER" "postgres";
    password = get_env env "DB_PASSWORD" "postgres";
    db_name = get_env env "DB_NAME" "statistiloto";
    ssl_mode = get_env env "DB_SSLMODE" "disable";
    schema = get_env env "DB_SCHEMA" "lottery";
  };
  auth = record {
    enabled = get_env_as_bool env "AUTH_ENABLED" true;
    jwks_url =
        get_env env "KEYCLOAK_JWKS_URL"
          "http://auth:8080/realms/statistiloto/protocol/openid-connect/certs";
    issuer = get_env env "KEYCLOAK_ISSUER" "";
    audience = get_env env "KEYCLOAK_AUDIENCE" "statistiloto-ui";
  };
  scraper = record {
    cron = get_env env "LOTTERY_SCRAPER_CRON" "0 3 * * *";
    seed_on_boot = get_env_as_bool env "LOTTERY_SEED_ON_BOOT" true;
  };
  redis_url = get_env env "REDIS_URL" "";
}
