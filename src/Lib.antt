-- ===== src/Lib.antt =====
-- Verification of chainbind: sealed, signed packages of segments for several audiences.
--
-- The program. Seal (pkg/chainbind/seal.go) asks an authority for permission, encrypts every
-- audience's segment under a fresh key, commits to the segments and the authorization, and signs.
-- Verify (pkg/chainbind/verify.go) checks structure, signature and content, and then asks the
-- authority. Open (pkg/chainbind/open.go) runs the offline part of Verify and decrypts one segment.
--
-- Files and code.
-- - Errors: errors.go and the sentinel errors of the other files. Value: what encoding/json is given.
-- - Platform: the code outside the repository (encoding/json, gowebpki/jcs, SHA-256, hex, base64url,
--   Ed25519, AES-GCM), as parameters, with the documented laws that theorems name.
-- - Ports: ports.go and crypto/rand. An answer may depend on every earlier call; the trace of calls
--   is threaded through, newest first.
-- - Package: package.go. Package/View: the JSON members of each struct.
-- - Canonical: canonical.go. Aad: aad.go. Crypto: crypto.go. Bindings: bindings.go.
-- - SignView: signview.go. Fault and Report: the types of verify.go. Verify: its functions.
-- - Seal: seal.go. Open: open.go.
-- - Prelude: tests, lists, maps as association lists, and the lemmas that the parts share.
-- - Tests: concrete platforms and packages, and the theorems at them.
-- - AgenticCheckout: profile/agenticcheckout/profile.go.
-- - Keywrap: internal/adapters/keywrap/x25519/wrapper.go. Adapters, from internal/adapters too:
--   LocalSigner (signer/local/signer.go), VaultSigner (signer/vault/signer.go), MockAuthority
--   (intent/mock/verifier.go), HttpAuthority (intent/http/verifier.go), Keycloak
--   (auth/keycloak/provider.go); Http: the HTTP client that two of them call.
-- - Shell: internal/adapters/http, its handlers and routes; Shell/Audiences: its roster.
-- - Cli: cmd/chainbind, its files and keys; Cli/Commands: its three subcommands. Config, Logger: internal/platform.
-- - AuthorityServer: cmd/mock-authority/main.go.
-- - Deployment: the core wired to local signer, key wrapping, mock authority and profile.
--
-- The parts together. The shell's seal route asks Keycloak's provider about the caller, splits the
-- payload by the profile and calls Seal, which calls its four ports: a signer, a key wrapper, an
-- authority and crypto/rand. The verify route calls Verify, which calls the authority alone.
--
-- Fuel. kdf_rounds of Keywrap takes as fuel the number of bytes to make: each round adds a digest.
--
-- How state and operations correspond. A Go map is an association list with `insert` and `lookup`; a
-- theorem that needs each key once says so (IsMap). Errors are values: a wrapped error is its
-- sentinel. A function that calls a port takes the trace and returns its result with the trace that
-- it leaves. Loops over slices and maps are structural recursions. The memory of the mock authority
-- and the cache of Keycloak's provider are passed on from call to call. A []byte is the list of its
-- bytes; a plaintext, which JCS writes as null where it is nil and as a text where it is only empty,
-- is an Option of that list (Slice).
--
-- Not modelled: the zeroing of keys, the texts of wrapped errors, deadlines (a client or a context may
-- fail at any time), what the commands write to stderr, the parsing of flags, and the start of
-- servers (cmd/chainbind-api, and main of cmd/mock-authority).
mod Prelude
pub mod Errors
pub mod Value
pub mod Platform
pub mod Ports
pub mod Package
pub mod Canonical
pub mod Aad
pub mod Crypto
pub mod Bindings
pub mod SignView
pub mod Fault
pub mod Report
pub mod Verify
pub mod Seal
pub mod Open
pub mod AgenticCheckout
pub mod Keywrap
pub mod Adapters
pub mod Deployment
pub mod Shell
pub mod Cli
pub mod AuthorityServer
pub mod Logger
pub mod Config
mod Tests
