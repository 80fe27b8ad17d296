-- ===== src/Dkg/Pdk.antt =====
-- crates/dkg/src/pdk.rs.
pub mod Derived
use craftsec.Base.{ℕ, zero, suc, List, [], ◌∷◌, ◌++◌, map, Text, text, to_le_bytes, as_u32, span}
use craftsec.Curve.{Curve, Scalar, Point, ◌•◌, from_u64, basepoint}
use craftsec.Core.External.{Digests, sha512}
use craftsec.Core.Error.{Result, ok, index, ◌>>=◌}
use craftsec.Core.Types.{KeyShare, ThresholdConfig}
use craftsec.Dkg.Polynomial.{Polynomial, evaluate}
use craftsec.Dkg.Feldman.{commit}

-- The bytes that the hasher is fed.
unfoldable pub derive_input : List ℕ → List ℕ → ℕ → List ℕ
derive_input ikm info i = text "CraftSEC-PDK-v1" ++ (ikm ++ (info ++ to_le_bytes 4 i))

-- The input key material: CID, separator and seed.
unfoldable pub key_material : Text → Text → List ℕ
key_material program_cid seed = program_cid ++ (0xFF ∷ seed)

module _ ⦃c : Curve⦄ where
  -- The key share of participant `i` of `n`.
  unfoldable pub deal_share : Polynomial → ℕ → Point → ℕ → KeyShare
  deal_share poly n group_public_key i = record {
    index = as_u32 i;
    secret = evaluate poly (from_u64 i);
    group_public_key = group_public_key;
    verification_shares = map (λ j. (as_u32 j, basepoint • evaluate poly (from_u64 j))) (span 1 n);
  }

  module _ ⦃d : Digests⦄ where
    unfoldable pub derive_scalar : List ℕ → List ℕ → ℕ → Scalar
    derive_scalar ikm info i = c.from_bytes_mod_order_wide (sha512 (derive_input ikm info i))

    -- The polynomial of a program's key, `i as u32` for `i` in `0..t`.
    unfoldable pub derive_polynomial : Text → Text → ℕ → Polynomial
    derive_polynomial program_cid seed t = record {
      coefficients =
          map (λ i. derive_scalar (key_material program_cid seed) (text "coefficient") (as_u32 i))
            (span 0 t);
    }

    unfoldable pub derive_key : Text → Text → ThresholdConfig → Result (Point × List KeyShare)
    derive_key program_cid seed config = do
      let t = config.threshold
      let n = config.total
      let poly = derive_polynomial program_cid seed t
      group_public_key ← index (commit poly) 0
      ok (group_public_key, map (deal_share poly n group_public_key) (span 1 n))
