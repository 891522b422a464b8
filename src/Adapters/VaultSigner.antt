-- ===== src/Adapters/VaultSigner.antt =====
-- internal/adapters/signer/vault/signer.go: a signer whose key is in Vault's Transit engine. The
-- functions of strings, strconv and encoding/base64 that it calls are parameters, as are
-- encoding/json's decoders into the response types of the file.
pub mod Pinned
pub mod Trusted
use Prim.Native.String.{◌++◌}
use chainbind_go.Prelude.{
  ℕ, String, Bool, true, false, ◌==◌, ◌||◌, not, Option, none, some, List, [], ◌∷◌, length, eqb,
  if◌then◌else◌,
}
use chainbind_go.Prelude.Integers.{ℤ, same_int}
use chainbind_go.Prelude.Maps.{Map, lookup, or_else}
use chainbind_go.Errors.{Result, ok, err, Error, or_err, ◌>>=◌, ◌>>◌}
use chainbind_go.Value.{Bytes, Value, object, field, end, text, int_value}
use chainbind_go.Platform.{Platform}
use chainbind_go.Ports
use chainbind_go.Ports.{Trace}
use chainbind_go.Adapters.{Context, live}
use chainbind_go.Adapters.Http.{Net, Request, new_request, exchange}

pub record Signer : Type 0 where
  pub addr : String
  pub token : String
  pub name : String
  pub net : Net
  pub version : ℤ
  pub key : Bytes

-- keyVersionKey is the text of its one member, public_key.
pub record KeysResponse : Type 0 where
  pub latest_version : ℤ
  pub type : String
  pub keys : Map String

-- strings.SplitN(s, ":", 3), strings.HasPrefix(s, "v") and TrimPrefix, strconv.Atoi and Itoa,
-- base64.StdEncoding, and the decoders; signResponse is the text of its signature.
pub record Library : Type 0 where
  pub split_colons : String → List String
  pub has_prefix_v : String → Bool
  pub trim_prefix_v : String → String
  pub atoi : String → Option ℤ
  pub itoa : ℤ → String
  pub encode : Bytes → String
  pub decode : String → Option Bytes
  pub keys_response : Bytes → Option KeysResponse
  pub sign_response : Bytes → Option String

unfoldable pub do_json {ℓ} : {A : Type ℓ} → Net → (Bytes → Option A) → Request → Trace → Result A
do_json net decode req t = exchange Error.vault_unreachable Error.vault_response net decode req t

abbrev pub keys_endpoint : String → String → String → Net → Request
keys_endpoint addr token name net = record {
  method = "GET";
  url = addr ++ "/v1/transit/keys/" ++ net.path_escape name;
  token = some token;
  body = [];
}

unfoldable pub fetch_key_metadata :
    Library → String → String → String → Net → Trace → Result KeysResponse
fetch_key_metadata lib addr token name net t = do
  req ← new_request net (keys_endpoint addr token name net)
  do_json net lib.keys_response req t

-- The key of the latest version, pinned for the signer's life.
unfoldable pub pin : Library → String → String → String → Net → KeysResponse → Result Signer
pin lib addr token name net resp =
    if not (resp.type == "ed25519")
    then err Error.key_type_unsupported
    else elim (lookup (lib.itoa resp.latest_version) resp.keys) [
      | none ↦ err Error.vault_response
      | some public_key ↦
          if public_key == "" then err Error.vault_response else elim (lib.decode public_key) [
            | none ↦ err Error.vault_response
            | some key ↦
                if not (eqb (length key) 32)
                then err Error.vault_response
                else ok (record {
                  addr = addr;
                  token = token;
                  name = name;
                  net = net;
                  version = resp.latest_version;
                  key = key;
                })
          ]
    ]

unfoldable pub new : Library → String → String → String → Option Net → Net → Trace → Result Signer
new lib addr token name client default_client t =
    let net = or_else client default_client in
    do resp ← fetch_key_metadata lib addr token name net t; pin lib addr token name net resp

unfoldable pub ping : Library → Signer → Trace → Result (Unit {0})
ping lib s t = fetch_key_metadata lib s.addr s.token s.name s.net t >> ok tt

abbrev pub kid_text : Library → Signer → String
kid_text lib s = s.name ++ ":v" ++ lib.itoa s.version

unfoldable pub kid : Library → Context → Signer → Trace → Result String
kid lib ctx s t = live ctx t >> ok (kid_text lib s)

abbrev pub sign_request : Library → Signer → Bytes → Value
sign_request lib s message =
    object
      (field "input" (text (lib.encode message)) (field "key_version" (int_value s.version) end))

abbrev pub sign_endpoint : Signer → Bytes → Request
sign_endpoint s body = record {
  method = "POST";
  url = s.addr ++ "/v1/transit/sign/" ++ s.net.path_escape s.name;
  token = some s.token;
  body = body;
}

unfoldable pub parse_vault_signature : Library → String → Result (ℤ × String)
parse_vault_signature lib s = elim (lib.split_colons s) [
  | scheme ∷ version ∷ rest ∷ [] ↦
      if not (scheme == "vault") || not (lib.has_prefix_v version)
      then err Error.vault_response
      else elim (lib.atoi (lib.trim_prefix_v version)) [
        | none ↦ err Error.vault_response
        | some n ↦ ok (n, rest)
      ]
  | _ ↦ err Error.vault_response
]

-- What is left of Sign once Vault has answered.
unfoldable pub accept_signature : Library → Signer → String → Result Bytes
accept_signature lib s signature = do
  (version, encoded) ← parse_vault_signature lib signature
  if not (same_int version s.version) then err Error.key_version_mismatch else do
    sig ← or_err Error.vault_response (lib.decode encoded)
    if not (eqb (length sig) 64) then err Error.vault_response else ok sig

unfoldable pub sign : Platform → Library → Signer → Bytes → Trace → Result Bytes
sign pf lib s message t = do
  body ← or_err (Error.foreign "encode sign request") (pf.json_marshal (sign_request lib s message))
  req ← new_request s.net (sign_endpoint s body)
  signature ← do_json s.net lib.sign_response req t
  accept_signature lib s signature

unfoldable pub public_key : Signer → Bytes
public_key s = s.key

-- The signer as the port that Seal uses.
abbrev pub port : Platform → Library → Context → Signer → Ports.Signer
port pf lib ctx s = record { kid = kid lib ctx s; sign = λ m t. sign pf lib s m t }
