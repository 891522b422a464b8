-- ===== src/Config.antt =====
-- internal/platform/config/config.go: the settings of the shell, from the environment.
use chainbind_go.Prelude.{String, ◌==◌, List, [], ◌∷◌, if◌then◌else◌}

-- os.Getenv: the empty text for a variable that is not set.
abbrev pub Environment : Type 0
Environment = String → String

pub record Config : Type 0 where
  pub vault_addr : String
  pub vault_token : String
  pub vault_transit_key : String
  pub issuer_id : String
  pub intent_authority_url : String
  pub keycloak_issuer : String
  pub keycloak_jwks_url : String
  pub keycloak_audience : String
  pub http_addr : String
  pub audiences_file : String

abbrev pub default_http_addr : String
default_http_addr = ":8080"

abbrev pub required : List String
required =
    "CHAINBIND_VAULT_ADDR" ∷ "CHAINBIND_VAULT_TOKEN" ∷ "CHAINBIND_VAULT_TRANSIT_KEY"
    ∷ "CHAINBIND_ISSUER_ID" ∷ "CHAINBIND_INTENT_AUTHORITY_URL" ∷ "CHAINBIND_KEYCLOAK_ISSUER"
    ∷ "CHAINBIND_KEYCLOAK_JWKS_URL" ∷ "CHAINBIND_KEYCLOAK_AUDIENCE" ∷ "CHAINBIND_AUDIENCES_FILE"
    ∷ []

-- The names that the loop of Load collects.
unfoldable pub missing_of : Environment → List String → List String
missing_of env [] = []
missing_of env (name ∷ names) =
    let rest = missing_of env names in if env name == "" then name ∷ rest else rest

-- ErrMissingConfig with the names that it lists, or the settings.
pub data Loaded : Type 0 where
  missing_config : List String → Loaded
  loaded : Config → Loaded

unfoldable pub load : Environment → Loaded
load env =
    let addr = env "CHAINBIND_HTTP_ADDR" in
    elim (missing_of env required) [
      | name ∷ names ↦ missing_config (name ∷ names)
      | [] ↦ loaded (record {
        vault_addr = env "CHAINBIND_VAULT_ADDR";
        vault_token = env "CHAINBIND_VAULT_TOKEN";
        vault_transit_key = env "CHAINBIND_VAULT_TRANSIT_KEY";
        issuer_id = env "CHAINBIND_ISSUER_ID";
        intent_authority_url = env "CHAINBIND_INTENT_AUTHORITY_URL";
        keycloak_issuer = env "CHAINBIND_KEYCLOAK_ISSUER";
        keycloak_jwks_url = env "CHAINBIND_KEYCLOAK_JWKS_URL";
        keycloak_audience = env "CHAINBIND_KEYCLOAK_AUDIENCE";
        http_addr = if addr == "" then default_http_addr else addr;
        audiences_file = env "CHAINBIND_AUDIENCES_FILE";
      })
    ]

unfoldable pub log_value : Config → List (String × String)
log_value c =
    ("vault_addr", c.vault_addr)
    ∷ ("vault_token", "[REDACTED]")
    ∷ ("vault_transit_key", c.vault_transit_key)
    ∷ ("issuer_id", c.issuer_id)
    ∷ ("intent_authority_url", c.intent_authority_url)
    ∷ ("keycloak_issuer", c.keycloak_issuer)
    ∷ ("keycloak_jwks_url", c.keycloak_jwks_url)
    ∷ ("keycloak_audience", c.keycloak_audience)
    ∷ ("http_addr", c.http_addr)
    ∷ ("audiences_file", c.audiences_file)
    ∷ []
