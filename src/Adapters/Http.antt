-- ===== src/Adapters/Http.antt =====
-- What the adapters use of net/http and net/url. The client answers a request or fails; how a
-- deadline ends a call is the client's own, so it may fail at any time.
use chainbind_go.Prelude.{
  ℕ, ◌≤◌, ◌<◌, String, Bool, ◌||◌, not, Option, none, some, take, ltb, ◌≡◌, inl, inr, Bool-cases,
  Option-cases, if◌then◌else◌, arith,
}
use chainbind_go.Errors.{Result, ok, err, Error, or_err}
use chainbind_go.Value.{Bytes}
use chainbind_go.Ports.{Trace}

pub record Request : Type 0 where
  pub method : String
  pub url : String
  pub token : Option String
  pub body : Bytes

pub record Response : Type 0 where
  pub status_code : ℕ
  pub body : Bytes

-- Client.Do, http.NewRequest's check of a URL, and url.PathEscape.
pub record Net : Type 0 where
  pub send : Request → Trace → Option Response
  pub accepts_url : String → Bool
  pub path_escape : String → String

abbrev pub max_response_body : ℕ
max_response_body = 1048576

-- `resp.StatusCode < 200 || resp.StatusCode >= 300`
abbrev pub is_refused : ℕ → Bool
is_refused status = ltb status 200 || not (ltb status 300)

-- http.NewRequestWithContext
abbrev pub new_request : Net → Request → Result Request
new_request net req =
    if net.accepts_url req.url then ok req else err (Error.foreign "build request")

-- Client.Do, the check of the status, and the decoding of at most max_response_body bytes.
unfoldable pub exchange {ℓ} :
    {A : Type ℓ} → Error → Error → Net → (Bytes → Option A) → Request → Trace → Result A
exchange unreachable invalid net decode req t = elim (net.send req t) [
  | none ↦ err unreachable
  | some resp ↦
      if is_refused resp.status_code
      then err invalid
      else or_err invalid (decode (take max_response_body resp.body))
]

-- The peer has answered a request with a status between 200 and 299 and a body that decodes.
pub record Answers {ℓ} {A : Type ℓ} (net : Net) (decode : Bytes → Option A) (req : Request)
    (t : Trace) (a : A) : Type ℓ where
  pub resp : Response
  pub sent : net.send req t ≡ some resp
  pub at_least : 200 ≤ resp.status_code
  pub less : resp.status_code < 300
  pub decoded : decode (take max_response_body resp.body) ≡ some a

pub exchange-Answers {ℓ} :
    {A : Type ℓ} (unreachable invalid : Error) (net : Net) (decode : Bytes → Option A)
    (req : Request) (t : Trace) (a : A)
    → exchange unreachable invalid net decode req t ≡ ok a
    → Answers net decode req t a
unfolding exchange
exchange-Answers unreachable invalid net decode req t a h = elim (Option-cases (net.send req t)) [
  | inl down ↦ absurd (let g = rw (down, exchange) at h in cc)
  | inr (resp, sent) ↦ elim (Bool-cases (is_refused resp.status_code)) [
    | inl refused ↦ absurd (let g = rw (sent, exchange, refused) at h in cc)
    | inr fine ↦ elim (Option-cases (decode (take max_response_body resp.body))) [
      | inl bad ↦ absurd (let g = rw (sent, exchange, fine, bad) at h in cc)
      | inr (b, decoded) ↦
          let same = rw (sent, exchange, fine, decoded) at h in
          record {
            resp = resp;
            sent = sent;
            at_least = ground arith;
            less = ground arith;
            decoded = cc;
          }
    ]
  ]
]

pub new_request-eq-ok :
    (net : Net) (req made : Request) → new_request net req ≡ ok made → made ≡ req
new_request-eq-ok net req made h = ground arith
