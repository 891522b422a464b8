-- ===== src/Verify/Received.antt =====
-- A package as its own JSON carries it (pkg/chainbind/package.go, Manifest.MarshalJSON): nil
-- disclosures are written as an empty list, which decodes to a list that is not nil.
use chainbind_go.Prelude.{String, true, ◌≡◌, refl, sym, subst, some, List, [], ◌∷◌, Distinct, All}
use chainbind_go.Prelude.Maps.{Map, insert, IsMap}
use chainbind_go.Errors.{ok}
use chainbind_go.Platform.{Platform}
use chainbind_go.Ports.{Trace}
use chainbind_go.Package.{Package, marshal_manifest}
use chainbind_go.Package.View
use chainbind_go.Bindings.Specs.{names}
use chainbind_go.SignView.{signing_view_fields, reconstruct_signing_view}
use chainbind_go.Report.{Report, report_ok}
use chainbind_go.Verify.{VerifyOptions, segment_at, plain_hashes, verify}
use chainbind_go.Verify.Content.{IsConsistent, BindingMatches, package_context}
use chainbind_go.Verify.Accept.{IsSigned, IsAuthentic, IsAuthorized, report_ok-verify_iff}
use chainbind_go.Verify.Asks.{verify-Reported}

abbrev pub received : Package → Package
received p = record p { manifest = marshal_manifest p.manifest }

module _ (p : Package) where
  -- The signed view is the same, since the signer's view is of the marshalled manifest too.
  received-view : signing_view_fields (received p) ≡ signing_view_fields p
  unfolding signing_view_fields
  received-view = rw (View.manifest-marshal_manifest p.manifest) refl

  received-hashes :
      (m : Map String) (order : List String)
      → plain_hashes (received p) m order ≡ plain_hashes p m order
  unfolding plain_hashes marshal_manifest
  received-hashes m [] = refl
  received-hashes m (a ∷ order) = received-hashes (insert a (segment_at p a).plain_hash m) order

module _ (pf : Platform) (p : Package) (opt : VerifyOptions) where
  received-IsSigned : IsSigned pf p opt → IsSigned pf (received p) opt
  unfolding reconstruct_signing_view
  received-IsSigned s = record {
    names = s.names;
    view = s.view;
    viewed = rw (received-view p) s.viewed;
    sig = s.sig;
    decoded = s.decoded;
    key = s.key;
    trusted = s.trusted;
    key_size = s.key_size;
    sig_size = s.sig_size;
    verified = s.verified;
  }

  received-context : package_context pf (received p) ≡ package_context pf p
  unfolding marshal_manifest
  received-context = rw (received-hashes p [] p.manifest.segment_order) refl

  received-IsConsistent :
      IsConsistent pf p opt.binding_specs → IsConsistent pf (received p) opt.binding_specs
  unfolding marshal_manifest
  received-IsConsistent c = record {
    same_id = c.same_id;
    ciphers = c.ciphers;
    root = rw (received-hashes p [] p.manifest.segment_order) c.root;
    bindings =
        subst (λ x. All (BindingMatches p x) opt.binding_specs) (sym received-context) c.bindings;
  }

  received-IsAuthentic : IsAuthentic pf p opt → IsAuthentic pf (received p) opt
  unfolding marshal_manifest
  received-IsAuthentic a = record {
    version = a.version;
    structured = record {
      some_audience = a.structured.some_audience;
      once = a.structured.once;
      described = a.structured.described;
      sealed = a.structured.sealed;
    };
    signed = received-IsSigned a.signed;
    consistent = received-IsConsistent a.consistent;
  }

  received-IsAuthorized : (t : Trace) → IsAuthorized pf p opt t → IsAuthorized pf (received p) opt t
  received-IsAuthorized t a = record {
    authority = a.authority;
    configured = a.configured;
    answered = a.answered;
    committed = a.committed;
  }

  -- Whoever finds a package OK finds it OK as received.
  pub verify-received :
      (t u : Trace) (report : Report)
      → IsMap p.manifest.segments
      → Distinct (names opt.binding_specs)
      → verify pf (some p) opt t ≡ (ok report, u)
      → report_ok (some report) ≡ true
      → (r : Report) × (w : Trace) × (verify pf (some (received p)) opt t ≡ (ok r, w))
        × (report_ok (some r) ≡ true)
  unfolding marshal_manifest
  verify-received t u report m distinct h good =
      let (authentic, authorized) =
        (report_ok-verify_iff pf p opt t u report m distinct h).0 good in
      let x = verify-Reported pf (received p) opt t in
      (
        x.report,
        x.left,
        x.result,
        (report_ok-verify_iff pf (received p) opt t x.left x.report m distinct x.result).1
            (received-IsAuthentic authentic, received-IsAuthorized t authorized),
      )
