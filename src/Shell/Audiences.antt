-- ===== src/Shell/Audiences.antt =====
-- internal/adapters/http/audiences.go: the roster of recipients that the seal route addresses.
use chainbind_go.Prelude.{
  String, Option, none, some, List, [], ◌∷◌, not, length, eqb, if◌then◌else◌,
}
use chainbind_go.Errors.{Result, ok, err, Error, or_err, ◌>>=◌}
use chainbind_go.Value.{Bytes}
use chainbind_go.Platform.{Platform}
use chainbind_go.Seal.{Audience}

pub record AudienceSeed : Type 0 where
  pub name : String
  pub kid : String
  pub public_key : String

unfoldable pub load_audience : Platform → AudienceSeed → Result Audience
load_audience pf s = elim (pf.base64url_decode s.public_key) [
  | none ↦ err (Error.audience_encoding s.name)
  | some key ↦
      if not (eqb (length key) 32)
      then err (Error.audience_key_size s.name)
      else ok (record { name = s.name; public_key = key; kid = s.kid })
]

-- The loop of LoadAudiences.
unfoldable pub decode_audiences : Platform → List AudienceSeed → Result (List Audience)
decode_audiences pf [] = ok []
decode_audiences pf (s ∷ seeds) = do
  aud ← load_audience pf s
  auds ← decode_audiences pf seeds
  ok (aud ∷ auds)

-- The first parameter reads a file, the second decodes it.
unfoldable pub load_audiences :
    (String → Option Bytes)
    → (Bytes → Option (List AudienceSeed))
    → Platform
    → String
    → Result (List Audience)
load_audiences read decode pf path = do
  raw ← or_err (Error.foreign "read audiences file") (read path)
  seeds ← or_err (Error.foreign "parse audiences file") (decode raw)
  decode_audiences pf seeds
