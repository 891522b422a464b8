-- ===== src/Adapters.antt =====
-- internal/adapters: the implementations of the core's ports that ship with the program, and what
-- they share.
pub mod LocalSigner
pub mod MockAuthority
pub mod Http
pub mod HttpAuthority
pub mod VaultSigner
pub mod Keycloak
use chainbind_go.Prelude.{Option, none, some, ◌≡◌, refl}
use chainbind_go.Errors.{Result, ok, err, Error}
use chainbind_go.Ports.{Trace}

-- A context is what its Err method answers at the time of a call.
abbrev pub Context : Type 0
Context = Trace → Option Error

-- `if err := ctx.Err(); err != nil { return ..., err }`
abbrev pub live : Context → Trace → Result (Unit {0})
live ctx t = elim (ctx t) [ some e ↦ err e | none ↦ ok tt ]

-- A context that is never done.
abbrev pub NeverDone : Context → Type 0
NeverDone ctx = (t : Trace) → ctx t ≡ none

pub live-eq-ok : (ctx : Context) (t : Trace) → ctx t ≡ none → live ctx t ≡ ok tt
live-eq-ok ctx t alive = rw (alive, live) refl
