-- ===== src/Dkg/Sharing.antt =====
-- The contract of a key generation: the participants hold the values of one polynomial.
use craftsec.Base.{ℕ, ◌≡◌, List, map, span}
use craftsec.Curve.{Curve, Scalar, Point, ◌•◌, scalar_zero, from_u64, basepoint}
use craftsec.Core.Types.{KeyShare}
use craftsec.Dkg.Polynomial.Horner.{horner}

module _ ⦃c : Curve⦄ where
  -- The public key of the secret that the polynomial hides at zero.
  abbrev pub public_key : List Scalar → Point
  public_key f = basepoint • horner f scalar_zero

  -- What participant `i` of `n` holds of the polynomial `f`.
  abbrev pub share_of : List Scalar → ℕ → ℕ → KeyShare
  share_of f n i = record {
    index = i;
    secret = horner f (from_u64 i);
    group_public_key = public_key f;
    verification_shares = map (λ j. (j, basepoint • horner f (from_u64 j))) (span 1 n);
  }

  -- The key shares of participants `1` to `n`, in this order, are the shares of `f`.
  abbrev pub IsSharing : List Scalar → ℕ → List KeyShare → Type 0
  IsSharing f n shares = shares ≡ map (share_of f n) (span 1 n)
