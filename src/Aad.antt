-- ===== src/Aad.antt =====
-- pkg/chainbind/aad.go
use chainbind_go.Prelude.{String, [], ◌∷◌}
use chainbind_go.Errors.{Result}
use chainbind_go.Value.{Bytes, Value, object, texts}
use chainbind_go.Platform.{Platform}
use chainbind_go.Canonical.{jcs}
use chainbind_go.Package.{AadContext}

-- aadInput
abbrev pub aad_input : AadContext → String → String → Value
aad_input c segment spec_version = object (
    texts (
      ("package_id", c.package_id)
      ∷ ("segment", segment)
      ∷ ("spec_version", spec_version)
      ∷ ("tenant_id", c.tenant_id)
      ∷ ("environment", c.environment)
      ∷ []))

unfoldable pub aad : Platform → AadContext → String → String → Result Bytes
aad pf c segment spec_version = jcs pf (aad_input c segment spec_version)
