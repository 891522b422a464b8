-- ===== src/Adapters/Keycloak/Admits.antt =====
-- Whom the provider admits, and so who may seal through the shell.
use chainbind_go.Prelude.{
  ℕ, ◌-◌, ◌<◌, String, true, false, ◌==◌, ◌≡◌, ◌⊎◌, inl, inr, refl, sym, ap, ◌∙◌, Option, none,
  some, List, [], ◌∷◌, ltb, Bool-cases, Option-cases, eq_iff, arith,
}
use chainbind_go.Prelude.Maps.{Map, lookup}
use chainbind_go.Errors.{ok, Result-cases}
use chainbind_go.Platform.{Platform}
use chainbind_go.Ports.{Trace}
use chainbind_go.Package.{Package}
use chainbind_go.Shell.{
  HttpRequest, Codecs, SealDeps, Authorizer, packaged, seal_handler, require_issuer_admin,
  bearer_token,
}
use chainbind_go.Shell.Guards.{seal_handler-SealedBy}
use chainbind_go.Adapters.Keycloak.{
  Role, text, other_role, Roles, list, other_roles, Claim, object, other_claim, Jwx, Provider,
  role_issuer_admin, lists_role, has_role, new, Cache, refetch, key_set, check_token, authorize,
}

-- A role stands in the list.
abbrev pub Lists : String → List Role → Type 0
Lists role [] = ⊥
Lists role (r ∷ roles) = (r ≡ text role) ⊎ Lists role roles

lists_role-Lists :
    (role : String) (roles : List Role) → lists_role role roles ≡ true → Lists role roles
unfolding lists_role
lists_role-Lists role [] h = absurd (cc)
lists_role-Lists role (other_role ∷ roles) h = inr (lists_role-Lists role roles h)
lists_role-Lists role (text s ∷ roles) h = elim (Bool-cases (s == role)) [
  | inl same ↦ inl (ap text ((eq_iff s role).0 same))
  | inr other ↦ inr (lists_role-Lists role roles (rw other at h))
]

-- The claim is an object whose roles are a list with this role.
pub record Grants (claim : Option Claim) (role : String) : Type 0 where
  pub obj : Map Roles
  pub roles : List Role
  pub is_object : claim ≡ some (object obj)
  pub listed : lookup "roles" obj ≡ some (list roles)
  pub granted : Lists role roles

Roles-cases :
    (o : Option Roles)
    → ((roles : List Role) × (o ≡ some (list roles))) ⊎ ((o ≡ none) ⊎ (o ≡ some other_roles))
Roles-cases none = inr (inl refl)
Roles-cases (some other_roles) = inr (inr refl)
Roles-cases (some (list roles)) = inl (roles, refl)

has_role-Grants :
    (claim : Option Claim) (role : String) → has_role claim role ≡ true → Grants claim role
unfolding has_role
has_role-Grants none role h = absurd (cc)
has_role-Grants (some other_claim) role h = absurd (cc)
has_role-Grants (some (object obj)) role h = elim (Roles-cases (lookup "roles" obj)) [
  | inl (roles, listed) ↦ record {
    obj = obj;
    roles = roles;
    is_object = refl;
    listed = listed;
    granted = lists_role-Lists role roles (rw (listed, has_role) at h);
  }
  | inr (inl missing) ↦ absurd (let g = rw (missing, has_role) at h in cc)
  | inr (inr odd) ↦ absurd (let g = rw (odd, has_role) at h in cc)
]

module _ (jwx : Jwx) (p : Provider) where
  -- A bearer that a key set no older than the cache allows has signed, for this issuer and audience,
  -- with the role; that key set is the one in the cache afterwards.
  pub record Admits (bearer : String) (t : Trace) (left : Cache jwx) : Type 0 where
    pub some_bearer : (bearer == "") ≡ false
    pub keys : jwx.KeySet
    pub fetched_at : ℕ
    pub cached : left ≡ some (keys, fetched_at)
    pub fresh : jwx.now t - fetched_at < p.cache_ttl
    pub token : jwx.Token
    pub parsed : jwx.parse bearer keys p.issuer p.audience t ≡ some token
    pub grants : Grants (jwx.realm_access token) role_issuer_admin

  -- What the cache holds after a key set has been found.
  record Holds (t : Trace) (keys : jwx.KeySet) (left : Cache jwx) : Type 0 where
    at : ℕ
    cached : left ≡ some (keys, at)
    fresh : jwx.now t - at < p.cache_ttl

  refetch-Holds :
      (cache left : Cache jwx) (t : Trace) (keys : jwx.KeySet)
      → 0 < p.cache_ttl
      → refetch jwx p cache t ≡ (ok keys, left)
      → Holds t keys left
  refetch-Holds cache left t keys positive h = elim (Option-cases (jwx.fetch p.jwks_url t)) [
    | inl down ↦ absurd (let g = rw (down, refetch) at h in cc)
    | inr (fetched, found) ↦
        let g = rw (found, refetch) at h in
        let same : fetched ≡ keys = cc in
        record {
          at = jwx.now t;
          cached = sym (ap (λ x. x.1) g) ∙ ap (λ k. some (k, jwx.now t)) same;
          fresh = omega arith;
        }
  ]

  key_set-Holds :
      (cache left : Cache jwx) (t : Trace) (keys : jwx.KeySet)
      → 0 < p.cache_ttl
      → key_set jwx p cache t ≡ (ok keys, left)
      → Holds t keys left
  unfolding key_set
  key_set-Holds none left t keys positive h = refetch-Holds none left t keys positive h
  key_set-Holds (some (set, at)) left t keys positive h =
      elim (Bool-cases (ltb (jwx.now t - at) p.cache_ttl)) [
        | inr stale ↦ refetch-Holds (some (set, at)) left t keys positive (rw (stale, key_set) at h)
        | inl young ↦
            let g = rw (young, key_set) at h in
            let same : set ≡ keys = cc in
            record {
              at = at;
              cached = sym (ap (λ x. x.1) g) ∙ ap (λ k. some (k, at)) same;
              fresh = ground arith;
            }
      ]

  check_token-Grants :
      (keys : jwx.KeySet) (bearer : String) (t : Trace)
      → check_token jwx p keys bearer t ≡ ok tt
      → (token : jwx.Token) × (jwx.parse bearer keys p.issuer p.audience t ≡ some token)
        × Grants (jwx.realm_access token) role_issuer_admin
  unfolding check_token
  check_token-Grants keys bearer t h =
      elim (Option-cases (jwx.parse bearer keys p.issuer p.audience t)) [
        | inl bad ↦ absurd (let g = rw (bad, check_token) at h in cc)
        | inr (token, parsed) ↦
            elim (Bool-cases (has_role (jwx.realm_access token) role_issuer_admin)) [
              | inl granted ↦ (
                token,
                parsed,
                has_role-Grants (jwx.realm_access token) role_issuer_admin granted,
              )
              | inr lacking ↦ absurd (let g = rw (parsed, lacking, check_token) at h in cc)
            ]
      ]

  -- Authorize admits a bearer only where it parses, by a key set that is in the cache and not older
  -- than the cache's time to live, to a token for this issuer and audience that grants the role.
  authorize-Admits :
      (cache left : Cache jwx) (bearer : String) (t : Trace)
      → 0 < p.cache_ttl
      → authorize jwx p cache bearer t ≡ (ok tt, left)
      → Admits bearer t left
  unfolding authorize
  authorize-Admits cache left bearer t positive h = elim (Bool-cases (bearer == "")) [
    | inl empty ↦ absurd (let g = rw (empty, authorize) at h in cc)
    | inr some_bearer ↦ elim (Result-cases (key_set jwx p cache t).0) [
      | inl (e, down) ↦ absurd (let g = rw (some_bearer, authorize, down) at h in cc)
      | inr (keys, found) ↦
          let g = rw (some_bearer, authorize, found) at h in
          let (token, parsed, grants) = check_token-Grants keys bearer t (ap (λ x. x.0) g) in
          let held =
            key_set-Holds cache (key_set jwx p cache t).1 t keys positive
              (ap (λ r. (r, (key_set jwx p cache t).1)) found) in
          record {
            some_bearer = some_bearer;
            keys = keys;
            fetched_at = held.at;
            cached = sym (ap (λ x. x.1) g) ∙ held.cached;
            fresh = held.fresh;
            token = token;
            parsed = parsed;
            grants = grants;
          }
    ]
  ]

-- The provider that New makes, as the port of the shell; its cache may have changed between calls.
abbrev pub port : (jwx : Jwx) → Provider → (Trace → Cache jwx) → Authorizer
port jwx p memory bearer t = (authorize jwx p (memory t) bearer t).0

-- The seal route behind a provider that New has made returns a package only to a caller with a
-- bearer token, issued for the provider's issuer and audience and valid under a key set that is less
-- than five minutes old, whose realm_access grants role_issuer_admin.
pub seal_handler-Admits :
    (jwx : Jwx) (jwks_url issuer audience : String) (memory : Trace → Cache jwx) (pf : Platform)
    (cs : Codecs) (deps : SealDeps) (r : HttpRequest) (t u : Trace) (p : Package)
    → require_issuer_admin
        (port jwx (new jwks_url issuer audience) memory)
        (seal_handler pf cs deps)
        r
        t
      ≡ (packaged p, u)
    → Admits jwx
        (new jwks_url issuer audience)
        (bearer_token r)
        t
        (authorize jwx (new jwks_url issuer audience) (memory t) (bearer_token r) t).1
unfolding new
seal_handler-Admits jwx jwks_url issuer audience memory pf cs deps r t u p h =
    let provider = new jwks_url issuer audience in
    let s = seal_handler-SealedBy pf cs deps (port jwx provider memory) r t u p h in
    authorize-Admits jwx provider (memory t)
      (authorize jwx provider (memory t) (bearer_token r) t).1 (bearer_token r) t (omega arith)
      (ap (λ x. (x, (authorize jwx provider (memory t) (bearer_token r) t).1)) s.admitted)
