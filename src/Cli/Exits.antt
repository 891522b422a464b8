-- ===== src/Cli/Exits.antt =====
-- What the exit codes of the subcommands promise.
use chainbind_go.Prelude.{
  true, ◌==◌, ◌||◌, ◌≡◌, ◌≢◌, refl, sym, subst, none, eq_iff, String, ap, ◌∙◌, inl, inr, Option,
  some, Bool-cases, Option-cases, arith,
}
use chainbind_go.Prelude.Maps.{IsMap}
use chainbind_go.Errors.{Result, ok, err, bind-eq-ok, ok-injective, Result-cases}
use chainbind_go.Value.{Bytes}
use chainbind_go.Platform.{Platform}
use chainbind_go.Ports.{Trace, IntentVerifier}
use chainbind_go.Package.{Package}
use chainbind_go.Report.{Report, report_ok}
use chainbind_go.Verify.{verify}
use chainbind_go.Verify.Accept.{IsAuthentic, IsAuthorized, report_ok-verify_iff}
use chainbind_go.AgenticCheckout.Bindings.{Distinct-names}
use chainbind_go.Adapters.MockAuthority
use chainbind_go.Adapters.HttpAuthority
use chainbind_go.Cli.{
  System, Surroundings, Outcome, load_key, resolve_authority, read_package, to_stdout,
}
use chainbind_go.Cli.Commands.{
  VerifyFlags, or_operational, print_report, cli_options, verify_files, run_verify,
}

print_report-exit_ok :
    (sys : System) (flags : VerifyFlags) (report : Report)
    → (print_report sys flags report).exit ≡ 0
    → report_ok (some report) ≡ true
unfolding print_report
print_report-exit_ok sys flags report h = elim (Bool-cases (report_ok (some report))) [
  | inl good ↦ good
  | inr bad ↦ elim (Bool-cases flags.json) [
    | inr plain ↦ absurd (let g : 3 ≡ 0 = rw (print_report, plain, bad) at h in omega arith)
    | inl json ↦ elim (Option-cases (sys.indent_report report)) [
      | inl none_made ↦
          absurd (let g : 1 ≡ 0 = rw (print_report, json, none_made) at h in omega arith)
      | inr (content, made) ↦ elim (Bool-cases (sys.writes (to_stdout content))) [
        | inl written ↦
            absurd (let g : 3 ≡ 0 = rw (print_report, json, made, written, bad) at h in omega arith)
        | inr lost ↦
            absurd (let g : 1 ≡ 0 = rw (print_report, json, made, lost) at h in omega arith)
      ]
    ]
  ]
]

-- The authority that the two flags name: none, the mock over a directory of seeds, or the one at a
-- URL; never both.
pub data Chosen (pf : Platform) (env : Surroundings)
    : String → String → Option IntentVerifier → Type 0 where
  nobody : Chosen pf env "" "" none
  seeded :
      {dir : String} (v : MockAuthority.Verifier env.floats)
      → dir ≢ ""
      → MockAuthority.new env.floats env.library dir ≡ ok v
      → Chosen pf env dir ""
          (some (MockAuthority.port env.floats pf env.library (λ t. none) (λ t. v)))
  remote :
      {url : String}
      → url ≢ ""
      → Chosen pf env "" url
          (some (HttpAuthority.port pf env.decoders (HttpAuthority.new url none env.net)))

resolve_authority-Chosen :
    (pf : Platform) (env : Surroundings) (dir url : String) (iv : Option IntentVerifier)
    → resolve_authority pf env dir url ≡ ok iv
    → Chosen pf env dir url iv
unfolding resolve_authority
resolve_authority-Chosen pf env dir url iv h = elim (Bool-cases (dir == "")) [
  | inl no_dir ↦
      let dirs = (eq_iff dir "").0 no_dir in
      elim (Bool-cases (url == "")) [
        | inl no_url ↦
            let it = ok-injective none iv (rw (resolve_authority, no_dir, no_url) at h) in
            subst (λ d. Chosen pf env d url iv) (sym dirs)
              (subst (λ u. Chosen pf env "" u iv) (sym ((eq_iff url "").0 no_url))
                (subst (Chosen pf env "" "") it nobody))
        | inr given ↦
            let it = ok-injective _ iv (rw (resolve_authority, no_dir, given) at h) in
            subst (λ d. Chosen pf env d url iv) (sym dirs)
              (subst (Chosen pf env "" url) it
                (remote (λ e. absurd (ground (arith, eq_iff url "")))))
      ]
  | inr a_dir ↦ elim (Bool-cases (url == "")) [
    | inl no_url ↦
        let (v, made, done) =
          bind-eq-ok (MockAuthority.new env.floats env.library dir) _
            (rw (resolve_authority, a_dir, no_url) at h) in
        subst (λ u. Chosen pf env dir u iv) (sym ((eq_iff url "").0 no_url))
          (subst (Chosen pf env dir "") (ok-injective _ iv done)
            (seeded v (λ e. absurd (ground (arith, eq_iff dir ""))) made))
    | inr both ↦ absurd (let g = rw (resolve_authority, a_dir, both) at h in cc)
  ]
]

-- What `chainbind verify` has established where it exits with 0.
pub record Verified (pf : Platform) (sys : System) (env : Surroundings) (flags : VerifyFlags)
    (t : Trace) : Type 0 where
  pub p : Package
  pub read : read_package sys flags.package_path ≡ ok p
  pub key : Bytes
  pub loaded : load_key pf sys flags.issuer_key ≡ ok key
  pub iv : Option IntentVerifier
  pub resolved : resolve_authority pf env flags.authority_seed_dir flags.authority_url ≡ ok iv
  pub chosen : Chosen pf env flags.authority_seed_dir flags.authority_url iv
  pub authentic : IsAuthentic pf p (cli_options pf key iv)
  pub authorized : IsAuthorized pf p (cli_options pf key iv) t

or_operational-exit_ok :
    (r : Result Outcome)
    → (or_operational r).exit ≡ 0
    → (out : Outcome) × (r ≡ ok out) × (out.exit ≡ 0)
or_operational-exit_ok (ok out) h = (out, refl, h)
or_operational-exit_ok (err e) h = absurd (let g : 1 ≡ 0 = h in omega arith)

verify_files-Verified :
    (pf : Platform) (sys : System) (env : Surroundings) (flags : VerifyFlags)
    (iv : Option IntentVerifier) (t : Trace) (out : Outcome)
    → resolve_authority pf env flags.authority_seed_dir flags.authority_url ≡ ok iv
    → ((p : Package) → read_package sys flags.package_path ≡ ok p → IsMap p.manifest.segments)
    → verify_files pf sys flags iv t ≡ ok out
    → out.exit ≡ 0
    → Verified pf sys env flags t
unfolding verify_files
verify_files-Verified pf sys env flags iv t out resolved once h exit =
    let (key, loaded, h1) = bind-eq-ok (load_key pf sys flags.issuer_key) _ h in
    let (p, read, h2) = bind-eq-ok (read_package sys flags.package_path) _ h1 in
    let opt = cli_options pf key iv in
    let (report, answered, h3) = bind-eq-ok (verify pf (some p) opt t).0 _ h2 in
    let printed : print_report sys flags report ≡ out = ok-injective _ out h3 in
    let good = print_report-exit_ok sys flags report (ap (λ o. o.exit) printed ∙ exit) in
    let (authentic, authorized) =
      (report_ok-verify_iff pf p opt t (verify pf (some p) opt t).1 report (once p read)
          (Distinct-names pf) (ap (λ r. (r, (verify pf (some p) opt t).1)) answered)).0
        good in
    record {
      p = p;
      read = read;
      key = key;
      loaded = loaded;
      iv = iv;
      resolved = resolved;
      chosen =
          resolve_authority-Chosen pf env flags.authority_seed_dir flags.authority_url iv resolved;
      authentic = authentic;
      authorized = authorized;
    }

-- `chainbind verify` exits with 0 only where an authority is named by the flags, by a directory of
-- seeds or by a URL but not by both, and the package is authentic under the issuer's key and confirmed
-- by that authority, asked now. A package that is read has each key of its manifest once.
pub run_verify-Verified :
    (pf : Platform) (sys : System) (env : Surroundings) (flags : VerifyFlags) (t : Trace)
    → ((p : Package) → read_package sys flags.package_path ≡ ok p → IsMap p.manifest.segments)
    → (run_verify pf sys env (some flags) t).exit ≡ 0
    → Verified pf sys env flags t
unfolding run_verify
run_verify-Verified pf sys env flags t once h =
    elim (Bool-cases (flags.package_path == "" || flags.issuer_key == "")) [
      | inl missing ↦ absurd (let g : 2 ≡ 0 = rw (run_verify, missing) at h in omega arith)
      | inr given ↦
          elim (Result-cases
            (resolve_authority pf env flags.authority_seed_dir flags.authority_url)) [
              | inl (e, bad) ↦
                  absurd (let g : 2 ≡ 0 = rw (run_verify, given, bad) at h in omega arith)
              | inr (iv, resolved) ↦
                  let (out, done, exit) =
                    or_operational-exit_ok (verify_files pf sys flags iv t)
                      (rw (run_verify, given, resolved) at h) in
                  verify_files-Verified pf sys env flags iv t out resolved once done exit
            ]
    ]
