-- ===== src/Tests/Recovering.antt =====
-- The first audience recovers its segment, by the round trip of Seal and Open.
use mathlib.Core.Bool.{false≢true}
use chainbind_go.Prelude.{
  eq_iff, ℕ, zero, suc, ◌-◌, ◌≡◌, ◌≢◌, refl, inl, none, some, ap, [], ◌∷◌, ◌++◌, All, arith, length,
  length-append,
}
use chainbind_go.Prelude.Maps.{lookup, or_else}
use chainbind_go.Errors.{ok, ok-injective}
use chainbind_go.Value.{IsBlock}
use chainbind_go.Platform.{OpensGcm}
use chainbind_go.Ports.{Trace, FillsBuffer}
use chainbind_go.Keywrap.Blocks.{take-append}
use chainbind_go.Seal.{Audience}
use chainbind_go.Open.{open_package}
use chainbind_go.Open.Recovers.{Unwraps, OwnThumbprint, open_package-seal}
use chainbind_go.Tests.Toy.{fill, blank, blank_decodes}
use chainbind_go.Tests.Sealing.{
  request, sealer, wrapper, zeros, options, keys_of, trusted, outcome, sealed, sealed-IsOk,
  cart-IsPure, cart-Distinct,
}

fill-IsBlock : (n : ℕ) → IsBlock n (fill 0 n)
unfolding fill
fill-IsBlock zero = (refl, tt)
fill-IsBlock (suc n) = let (e, h) = fill-IsBlock n in (omega arith, (omega arith, h))

pub zeros-FillsBuffer : FillsBuffer zeros
zeros-FillsBuffer = record {
  drawn = λ n t b h. rw (← (ok-injective (fill 0 n) b h)) (fill-IsBlock n);
}

pub blank-OpensGcm : OpensGcm blank
blank-OpensGcm = record {
  gcm_open-gcm_seal = λ key nonce plain aad long short.
      let pad = fill-IsBlock 16 in
      let cut : length (plain ++ fill 0 16) - 16 ≡ length plain =
        omega (arith, length-append plain (fill 0 16)) in
      ap (λ b. some b) (rw cut (take-append (length plain) plain (fill 0 16) refl));
}

abbrev shop : Audience
shop = record { name = "shop"; public_key = 1 ∷ []; kid = "shop-1" }

shop-kept : or_else (lookup "shop" request.segments) none ≢ some []
shop-kept h = cc

shop-Unwraps : Unwraps wrapper (1 ∷ []) (1 ∷ [])
shop-Unwraps = record { derives = refl; opens = λ dek t u x size h. cc }

shop-OwnThumbprint : All (OwnThumbprint wrapper shop) request.audiences
shop-OwnThumbprint = (
  λ h. refl,
  (λ h. absurd (false≢true ((eq_iff "jkt-2" "jkt-1").1 (ok-injective "jkt-2" "jkt-1" h))), tt),
)

open_package-seal_example :
    (w : Trace) × (open_package blank (some sealed) (1 ∷ []) wrapper options []
      ≡ (ok ("shop", or_else (lookup "shop" request.segments) none), w))
open_package-seal_example =
    open_package-seal blank sealer request options keys_of shop (1 ∷ []) [] outcome.1 [] sealed
      blank_decodes blank-OpensGcm zeros-FillsBuffer refl trusted refl cart-Distinct
      (cart-IsPure, tt) (inl refl) shop-kept shop-Unwraps shop-OwnThumbprint sealed-IsOk
