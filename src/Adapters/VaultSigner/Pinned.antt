-- ===== src/Adapters/VaultSigner/Pinned.antt =====
-- The Vault signer and its pinned key version.
use Prim.Native.String.{◌++◌}
use chainbind_go.Prelude.{
  String, ◌⊎◌, true, ◌==◌, ◌||◌, not, ◌≡◌, inl, inr, refl, sym, ◌∙◌, ap, subst, Option, some, List,
  [], ◌∷◌, length, eqb, Bool-cases, Option-cases, eq_iff, arith,
}
use chainbind_go.Prelude.Integers.{ℤ, same_int, same_int-eq}
use chainbind_go.Prelude.Maps.{lookup, or_else}
use chainbind_go.Errors.{
  ok, err, Error, or_err, or_err-eq-ok, bind-eq-ok, ok-injective, Result-cases,
}
use chainbind_go.Value.{Bytes}
use chainbind_go.Platform.{Platform}
use chainbind_go.Ports.{Trace}
use chainbind_go.Adapters.{Context, live}
use chainbind_go.Adapters.Http.{Net, Answers, exchange-Answers, new_request, new_request-eq-ok}
use chainbind_go.Adapters.VaultSigner.{
  Signer, KeysResponse, Library, do_json, keys_endpoint, fetch_key_metadata, pin, new, sign_request,
  sign_endpoint, parse_vault_signature, accept_signature, kid, sign,
}

module _ (lib : Library) where
  -- A text of three parts between colons: the scheme `vault`, a `v` before the version, the rest.
  pub record IsVaultText (signature : String) (version : ℤ) (rest : String) : Type 0 where
    pub marked : String
    pub parts : lib.split_colons signature ≡ "vault" ∷ marked ∷ rest ∷ []
    pub prefixed : lib.has_prefix_v marked ≡ true
    pub number : lib.atoi (lib.trim_prefix_v marked) ≡ some version

  -- A signature that Sign may return.
  pub record IsPinned (s : Signer) (signature : String) (sig : Bytes) : Type 0 where
    pub rest : String
    pub text : IsVaultText signature s.version rest
    pub decoded : lib.decode rest ≡ some sig
    pub size : length sig ≡ 64

  parse-parts :
      (signature : String) (parts : List String)
      → lib.split_colons signature ≡ parts
      → (version : ℤ) (rest : String) → parse_vault_signature lib signature ≡ ok (version, rest)
      → IsVaultText signature version rest
  unfolding parse_vault_signature
  parse-parts signature [] e version rest h =
      absurd (let g = rw (parse_vault_signature, e) at h in cc)
  parse-parts signature (a ∷ []) e version rest h =
      absurd (let g = rw (parse_vault_signature, e) at h in cc)
  parse-parts signature (a ∷ b ∷ []) e version rest h =
      absurd (let g = rw (parse_vault_signature, e) at h in cc)
  parse-parts signature (a ∷ b ∷ c ∷ d ∷ more) e version rest h =
      absurd (let g = rw (parse_vault_signature, e) at h in cc)
  parse-parts signature (a ∷ b ∷ c ∷ []) e version rest h =
      elim (Bool-cases (not (a == "vault") || not (lib.has_prefix_v b))) [
        | inl bad ↦ absurd (let g = rw (parse_vault_signature, e, bad) at h in cc)
        | inr good ↦ elim (Option-cases (lib.atoi (lib.trim_prefix_v b))) [
          | inl nan ↦ absurd (let g = rw (parse_vault_signature, e, good, nan) at h in cc)
          | inr (n, number) ↦
              let same =
                ok-injective (n, c) (version, rest)
                  (rw (parse_vault_signature, e, good, number) at h) in
              let scheme : a ≡ "vault" = ground (arith, eq_iff a "vault") in
              let third : c ≡ rest = ap (λ x. x.1) same in
              let second : n ≡ version = ap (λ x. x.0) same in
              record {
                marked = b;
                parts = rw (← scheme, ← third) e;
                prefixed = ground arith;
                number = number ∙ ap some second;
              }
        ]
      ]

  accept_signature-IsPinned :
      (s : Signer) (signature : String) (sig : Bytes)
      → accept_signature lib s signature ≡ ok sig
      → IsPinned s signature sig
  unfolding accept_signature
  accept_signature-IsPinned s signature sig h =
      let ((version, rest), parsed, h1) = bind-eq-ok (parse_vault_signature lib signature) _ h in
      elim (Bool-cases (same_int version s.version)) [
        | inr other ↦ absurd (let g = rw other at h1 in cc)
        | inl same ↦
            let (b, decoded, h2) =
              bind-eq-ok (or_err Error.vault_response (lib.decode rest)) _ (rw same at h1) in
            elim (Bool-cases (eqb (length b) 64)) [
              | inr short ↦ absurd (let g = rw short at h2 in cc)
              | inl full ↦
                  let it : b ≡ sig = ok-injective b sig (rw full at h2) in
                  let size : length b ≡ 64 = ground arith in
                  record {
                    rest = rest;
                    text =
                        subst (λ n. IsVaultText signature n rest)
                          (same_int-eq version s.version same)
                          (parse-parts signature (lib.split_colons signature) refl version rest
                            parsed);
                    decoded = or_err-eq-ok _ _ b decoded ∙ ap some it;
                    size = ap length (sym it) ∙ size;
                  }
            ]
      ]

  kid-named :
      (s : Signer) (ctx : Context) (u : Trace)
      → (kid lib ctx s u ≡ ok (s.name ++ ":v" ++ lib.itoa s.version))
        ⊎ ((e : Error) × (kid lib ctx s u ≡ err e))
  unfolding kid
  kid-named s ctx u = elim (Result-cases (live ctx u)) [
    | inr (x, alive) ↦ inl (rw (kid, alive) refl)
    | inl (e, done) ↦ inr (e, rw (kid, done) refl)
  ]

  -- Vault has answered the request to sign, which names the pinned version; and Kid, whatever its
  -- context, returns the text of key and pinned version or an error.
  pub record Signed (pf : Platform) (s : Signer) (message : Bytes) (t : Trace) (sig : Bytes)
      : Type 0 where
    pub body : Bytes
    pub encoded : pf.json_marshal (sign_request lib s message) ≡ some body
    pub signature : String
    pub answers : Answers s.net lib.sign_response (sign_endpoint s body) t signature
    pub pinned : IsPinned s signature sig
    pub named :
        (ctx : Context) (u : Trace)
        → (kid lib ctx s u ≡ ok (s.name ++ ":v" ++ lib.itoa s.version))
          ⊎ ((e : Error) × (kid lib ctx s u ≡ err e))

  -- Every signature that Sign returns is one that Vault gave, with a status between 200 and 299, in
  -- answer to a request for the pinned version; Vault's answer names that version, and the signature
  -- has 64 bytes. Kid, if it returns a text, returns the name of the key, `:v` and that version, at
  -- any time and for any context.
  pub sign-Signed :
      (pf : Platform) (s : Signer) (message : Bytes) (t : Trace) (sig : Bytes)
      → sign pf lib s message t ≡ ok sig
      → Signed pf s message t sig
  unfolding sign do_json
  sign-Signed pf s message t sig h =
      let (body, encoded, h1) =
        bind-eq-ok
          (or_err (Error.foreign "encode sign request")
            (pf.json_marshal (sign_request lib s message)))
          _ h in
      let (req, built, h2) = bind-eq-ok (new_request s.net (sign_endpoint s body)) _ h1 in
      let (signature, sent, h3) = bind-eq-ok (do_json s.net lib.sign_response req t) _ h2 in
      record {
        body = body;
        encoded = or_err-eq-ok _ _ body encoded;
        signature = signature;
        answers =
            subst (λ q. Answers s.net lib.sign_response q t signature)
              (new_request-eq-ok s.net (sign_endpoint s body) req built)
              (exchange-Answers _ _ s.net lib.sign_response req t signature sent);
        pinned = accept_signature-IsPinned s signature sig h3;
        named = kid-named s;
      }

  -- The signer that New makes of Vault's answer about a key.
  pub record IsPublished (addr token name : String) (net : Net) (t : Trace) (s : Signer)
      : Type 0 where
    pub resp : KeysResponse
    pub answers : Answers net lib.keys_response (keys_endpoint addr token name net) t resp
    pub ed25519 : resp.type ≡ "ed25519"
    pub public_text : String
    pub published : lookup (lib.itoa resp.latest_version) resp.keys ≡ some public_text
    pub key : Bytes
    pub decoded : lib.decode public_text ≡ some key
    pub size : length key ≡ 32
    pub built : s ≡ record {
      addr = addr;
      token = token;
      name = name;
      net = net;
      version = resp.latest_version;
      key = key;
    }

  pin-IsPublished :
      (addr token name : String) (net : Net) (t : Trace) (resp : KeysResponse) (s : Signer)
      → Answers net lib.keys_response (keys_endpoint addr token name net) t resp
      → pin lib addr token name net resp ≡ ok s
      → IsPublished addr token name net t s
  unfolding pin
  pin-IsPublished addr token name net t resp s answers h =
      elim (Bool-cases (resp.type == "ed25519")) [
        | inr other ↦ absurd (let g = rw (other, pin) at h in cc)
        | inl typed ↦ elim (Option-cases (lookup (lib.itoa resp.latest_version) resp.keys)) [
          | inl missing ↦ absurd (let g = rw (typed, missing, pin) at h in cc)
          | inr (public_text, published) ↦ elim (Bool-cases (public_text == "")) [
            | inl empty ↦ absurd (let g = rw (typed, published, pin, empty) at h in cc)
            | inr some_text ↦ elim (Option-cases (lib.decode public_text)) [
              | inl bad ↦ absurd (let g = rw (typed, published, pin, some_text, bad) at h in cc)
              | inr (key, decoded) ↦ elim (Bool-cases (eqb (length key) 32)) [
                | inr short ↦
                    absurd
                      (let g = rw (typed, published, pin, some_text, decoded, short) at h in cc)
                | inl full ↦ record {
                  resp = resp;
                  answers = answers;
                  ed25519 = (eq_iff _ _).0 typed;
                  public_text = public_text;
                  published = published;
                  key = key;
                  decoded = decoded;
                  size = ground arith;
                  built = sym (
                      ok-injective _ s (rw (typed, published, pin, some_text, decoded, full) at h));
                }
              ]
            ]
          ]
        ]
      ]

  -- New pins the latest version of a key of type ed25519, with the 32 bytes that Vault publishes for
  -- that version, and keeps the client that it was given, or the default one.
  pub new-IsPublished :
      (addr token name : String) (client : Option Net) (default_client : Net) (t : Trace)
      (s : Signer)
      → new lib addr token name client default_client t ≡ ok s
      → IsPublished addr token name (or_else client default_client) t s
  unfolding new fetch_key_metadata do_json
  new-IsPublished addr token name client default_client t s h =
      let net = or_else client default_client in
      let (resp, fetched, h1) = bind-eq-ok (fetch_key_metadata lib addr token name net t) _ h in
      let (req, built, sent) =
        bind-eq-ok (new_request net (keys_endpoint addr token name net)) _ fetched in
      pin-IsPublished addr token name net t resp s
        (subst (λ q. Answers net lib.keys_response q t resp)
          (new_request-eq-ok net (keys_endpoint addr token name net) req built)
          (exchange-Answers _ _ net lib.keys_response req t resp sent))
        h1
