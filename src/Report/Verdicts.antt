-- ===== src/Report/Verdicts.antt =====
-- When a report is a pass.
use chainbind_go.Prelude.{◌≡◌, refl, ◌↔◌, ◌≢◌, true, some, [], arith, length}
use chainbind_go.Prelude.Maps.{or_else}
use chainbind_go.Fault.{no_fault}
use chainbind_go.Report.{Report, IntentResult, all_true, level1_passed, report_ok}

-- Every Level 1 check has passed, and at least one cipher hash was checked.
pub record PassesLevel1 (r : Report) : Type 0 where
  pub structural : r.structural ≡ no_fault
  pub supported : r.spec_version_supported ≡ true
  pub signed : r.signature ≡ true
  pub consistent : r.aad_context_consistent ≡ true
  pub rooted : r.segments_root ≡ true
  pub hashed : length (or_else r.cipher_hashes []) ≢ 0
  pub ciphers : all_true (or_else r.cipher_hashes []) ≡ true
  pub bound : all_true (or_else r.profile_bindings []) ≡ true

pub level1_passed_sound : (r : Report) → level1_passed r ≡ true → PassesLevel1 r
unfolding level1_passed
level1_passed_sound r h = record {
  structural = ground arith;
  supported = ground arith;
  signed = ground arith;
  consistent = ground arith;
  rooted = ground arith;
  hashed = ground arith;
  ciphers = ground arith;
  bound = ground arith;
}

pub level1_passed_complete : (r : Report) → PassesLevel1 r → level1_passed r ≡ true
unfolding level1_passed
level1_passed_complete r h = ground (
  arith, h.structural, h.supported, h.signed, h.consistent, h.rooted, h.hashed, h.ciphers, h.bound,
)

-- OK is true exactly where all of Level 1 passed and the authority was asked and agreed: an intent
-- level that was not evaluated is never a pass.
pub report_ok_iff :
    (r : Report)
    → (report_ok (some r) ≡ true)
      ↔ (PassesLevel1 r × (r.intent.evaluated ≡ true) × (r.intent.valid ≡ true))
unfolding report_ok
report_ok_iff r = (
  λ h. (level1_passed_sound r (ground arith), ground arith, ground arith),
  λ (h, evaluated, valid). rw (level1_passed_complete r h, evaluated, valid) refl,
)

-- The intent level has no part in Level 1.
pub level1-intent :
    (r : Report) (i : IntentResult) → level1_passed (record r { intent = i }) ≡ level1_passed r
unfolding level1_passed
level1-intent r i = refl
