-- ===== src/Tests/Toy.antt =====
-- Two platforms: `toy` writes values so that they can be read back, `blank` writes them all alike.
use chainbind_go.Prelude.{ℕ, zero, suc, refl, true, some, [], ◌∷◌, ◌++◌, ◌-◌, length, take, eqb}
use chainbind_go.Value.{Bytes}
use chainbind_go.Platform.{Platform, DecodesBase64}
use chainbind_go.Canonical.{jcs, ReadsBack, SortsMembers}
use chainbind_go.Tests.Codec.{text_of, bytes_of, bytes_of-text_of, text_of-injective}
use chainbind_go.Tests.Json.{put, put-injective}

-- A byte string of one repeated byte.
unfoldable pub fill : ℕ → ℕ → Bytes
fill b zero = []
fill b (suc n) = b ∷ fill b n

abbrev pub toy : Platform
toy = record {
  json_marshal = λ v. some (put v []);
  jcs_transform = λ b. some b;
  sha256 = λ b. b;
  hex = text_of;
  base64url = text_of;
  base64url_decode = bytes_of;
  ed25519_verify = λ key view sig. eqb (length sig) 64;
  aes_accepts = λ key. true;
  gcm_accepts = λ key. true;
  gcm_seal = λ key nonce plain aad. plain ++ fill 0 16;
  gcm_open = λ key nonce sealed aad. some (take (length sealed - 16) sealed);
}

abbrev pub blank : Platform
blank = record toy { json_marshal = λ v. some []; sha256 = λ b. [] }

pub toy_reads : ReadsBack toy
unfolding jcs
toy_reads = record {
  jcs_injective = λ v w b shape hv hw. (put-injective v w [] [] shape cc).0;
  hex_injective = text_of-injective;
}

pub blank_decodes : DecodesBase64 blank
blank_decodes = record { decode-encode = bytes_of-text_of }

pub blank_sorts : SortsMembers blank
unfolding jcs
blank_sorts = record { jcs_same = λ m n hm hn same. refl }
