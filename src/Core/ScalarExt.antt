-- ===== src/Core/ScalarExt.antt =====
-- crates/core/src/scalar_ext.rs.
use craftsec.Base.{ℕ, List}
use craftsec.Curve.{Curve, Scalar}
use craftsec.Core.External.{Digests, RngCore, State, sha512, fill_bytes}

module _ ⦃c : Curve⦄ where
  unfoldable pub random_scalar : ⦃g : RngCore⦄ → State → Scalar × State
  random_scalar s = let (bytes, s') = fill_bytes 64 s in (c.from_bytes_mod_order_wide bytes, s')

  unfoldable pub hash_to_scalar : ⦃d : Digests⦄ → List ℕ → Scalar
  hash_to_scalar input = c.from_bytes_mod_order_wide (sha512 input)
