-- ===== src/Adapters/Keycloak.antt =====
-- internal/adapters/auth/keycloak/provider.go: bearer tokens checked against the keys of a realm,
-- with a cache of those keys. The library jwx (fetching of a key set, and parsing with the checks of
-- signature, issuer, audience and times) and the clock are parameters. The lock makes the reading and
-- the writing of the cache whole steps; a call in another goroutine that writes the cache in between
-- is a change of the cache that the next call is given.
pub mod Admits
use chainbind_go.Prelude.{
  ℕ, ◌-◌, String, Bool, true, false, ◌==◌, ◌||◌, not, Option, none, some, List, [], ◌∷◌, ltb,
  if◌then◌else◌,
}
use chainbind_go.Prelude.Maps.{Map, lookup}
use chainbind_go.Errors.{Result, ok, err, Error}
use chainbind_go.Ports.{Trace}

-- The claim realm_access as it is decoded into an `any`, as far as it is looked at.
pub data Role : Type 0 where
  text : String → Role
  other_role : Role

pub data Roles : Type 0 where
  list : List Role → Roles
  other_roles : Roles

pub data Claim : Type 0 where
  object : Map Roles → Claim
  other_claim : Claim

-- jwk.Fetch within its timeout, jwt.Parse of a bearer with a key set, issuer and audience, the claim
-- realm_access of a token, and time.Now.
pub record Jwx : Type 1 where
  pub KeySet : Type 0
  pub Token : Type 0
  pub fetch : String → Trace → Option KeySet
  pub parse : String → KeySet → String → String → Trace → Option Token
  pub realm_access : Token → Option Claim
  pub now : Trace → ℕ

pub record Provider : Type 0 where
  pub jwks_url : String
  pub issuer : String
  pub audience : String
  pub cache_ttl : ℕ

-- Five minutes, in nanoseconds.
abbrev pub default_cache_ttl : ℕ
default_cache_ttl = 300000000000

unfoldable pub new : String → String → String → Provider
new jwks_url issuer audience = record {
  jwks_url = jwks_url;
  issuer = issuer;
  audience = audience;
  cache_ttl = default_cache_ttl;
}

abbrev pub role_issuer_admin : String
role_issuer_admin = "role_issuer_admin"

-- The loop over the roles.
unfoldable pub lists_role : String → List Role → Bool
lists_role role [] = false
lists_role role (other_role ∷ roles) = lists_role role roles
lists_role role (text s ∷ roles) = s == role || lists_role role roles

unfoldable pub has_role : Option Claim → String → Bool
has_role none role = false
has_role (some other_claim) role = false
has_role (some (object obj)) role = elim (lookup "roles" obj) [
  | none ↦ false
  | some other_roles ↦ false
  | some (list roles) ↦ lists_role role roles
]

module _ (jwx : Jwx) where
  -- The cached key set, with the time at which it was fetched.
  abbrev pub Cache : Type 0
  Cache = Option (jwx.KeySet × ℕ)

  abbrev pub refetch : Provider → Cache → Trace → Result jwx.KeySet × Cache
  refetch p cache t = elim (jwx.fetch p.jwks_url t) [
    | none ↦ (err (Error.foreign "fetch jwks"), cache)
    | some fetched ↦ (ok fetched, some (fetched, jwx.now t))
  ]

  unfoldable pub key_set : Provider → Cache → Trace → Result jwx.KeySet × Cache
  key_set p none t = refetch p none t
  key_set p (some (set, fetched_at)) t =
      if ltb (jwx.now t - fetched_at) p.cache_ttl
      then (ok set, some (set, fetched_at))
      else refetch p (some (set, fetched_at)) t

  -- What is left of Authorize once there is a key set.
  unfoldable pub check_token : Provider → jwx.KeySet → String → Trace → Result (Unit {0})
  check_token p set bearer t = elim (jwx.parse bearer set p.issuer p.audience t) [
    | none ↦ err Error.unauthorized
    | some token ↦
        if not (has_role (jwx.realm_access token) role_issuer_admin)
        then err Error.forbidden
        else ok tt
  ]

  unfoldable pub authorize : Provider → Cache → String → Trace → Result (Unit {0}) × Cache
  authorize p cache bearer t =
      if bearer == ""
      then (err Error.unauthorized, cache)
      else let (set, left) = key_set p cache t in
        elim set [
          | err e ↦ (err Error.unauthorized, left)
          | ok keys ↦ (check_token p keys bearer t, left)
        ]
