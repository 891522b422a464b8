-- ===== src/Tests/Served.antt =====
-- The mock authority of the module Authority, behind a server that tells its two routes by method.
use chainbind_go.Prelude.{
  true, false, sym, ◌∙◌, subst, take, ◌==◌, ◌≡◌, ◌↔◌, refl, none, some, [], ◌∷◌, if◌then◌else◌,
}
use chainbind_go.Errors.{ok, ok-injective}
use chainbind_go.Value.{null}
use chainbind_go.Ports.{IntentDecision}
use chainbind_go.Adapters.Http.{max_response_body}
use chainbind_go.Adapters.HttpAuthority
use chainbind_go.Adapters.HttpAuthority.{Decoders}
use chainbind_go.Adapters.MockAuthority
use chainbind_go.AuthorityServer.{Serving, check_route, hash_route}
use chainbind_go.AuthorityServer.Faithful.{Wired, client, check-check_iff}
use chainbind_go.Tests.Toy.{blank}
use chainbind_go.Tests.Authority.{whole, files, memory, background}

abbrev serving : Serving
serving = record {
  route = λ req.
      if req.method == "POST" then some (check_route "intent-1") else some (hash_route "intent-1");
  unrouted = λ req. record { status_code = 404; body = [] };
  decode_projection = λ body. some null;
  encode_decision = λ d. if d.allowed then 1 ∷ [] else [];
  encode_hash = λ h. [];
  encode_status = [];
  error_text = λ s. [];
}

abbrev reading : Decoders
reading = record {
  check_response = λ b. elim b [
    | [] ↦ some (record { allowed = false; reason = "" })
    | x ∷ rest ↦ some (record { allowed = true; reason = "" })
  ];
  constraints_hash_response = λ b. none;
}

abbrev remote : HttpAuthority.Verifier
remote =
    client whole blank files background serving memory "https://authority" (λ url. true) (λ s. s)
      reading

abbrev granted : IntentDecision
granted = record { allowed = true; reason = "" }

memory-grants :
    MockAuthority.check whole blank files background (memory []) "intent-1" null [] ≡ ok granted
unfolding MockAuthority.check MockAuthority.lookup_doc MockAuthority.projection_fields
    MockAuthority.check_rules MockAuthority.evaluate MockAuthority.evaluate_equals
    MockAuthority.evaluate_bounds MockAuthority.same_any
memory-grants = refl

remote-Wired :
    Wired reading serving remote "intent-1" null []
      (MockAuthority.check whole blank files background (memory []) "intent-1" null [])
remote-Wired = record {
  accepted = refl;
  routed = refl;
  reads_projection = refl;
  reads_decision = λ d h.
      subst
        (λ x.
          reading.check_response (take max_response_body (serving.encode_decision x))
          ≡ some (record { allowed = x.allowed; reason = x.reason }))
        (ok-injective granted d (sym memory-grants ∙ h)) refl;
}

check-check_iff_example :
    (HttpAuthority.check blank reading remote "intent-1" null [] ≡ ok granted)
    ↔ (MockAuthority.check whole blank files background (memory []) "intent-1" null [] ≡ ok granted)
check-check_iff_example =
    check-check_iff whole blank files background serving memory "https://authority" (λ url. true)
      (λ s. s) reading "intent-1" null [] [] granted remote-Wired refl
