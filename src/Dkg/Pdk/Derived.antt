-- ===== src/Dkg/Pdk/Derived.antt =====
-- Derived keys are shares of one polynomial, and the hashed key material names program and seed.
use craftsec.Base.{
  ℕ, suc, ◌<◌, ◌≡◌, ◌≢◌, refl, sym, ap, ap₂, ◌∙◌, List, [], ◌∷◌, map, length, length-map,
  length-span, map-span-congr, span, All, Text, u32_bound, arith,
}
use craftsec.Curve.{Curve, Scalar, Point, ◌•◌, basepoint, from_u64}
use craftsec.Core.External.{Digests}
use craftsec.Core.Error.{ok, index}
use craftsec.Core.Types.{KeyShare, ThresholdConfig, IsValid}
use craftsec.Dkg.Polynomial.{Polynomial}
use craftsec.Dkg.Polynomial.Horner.{horner, evaluate-horner, horner-zero}
use craftsec.Dkg.Sharing.{public_key, share_of, IsSharing}
use craftsec.Dkg.Feldman.{commit}
use craftsec.Dkg.Feldman.Honest.{as_u32-eq}
use craftsec.Dkg.Pdk.{deal_share, derive_polynomial, derive_key, key_material}

module _ ⦃c : Curve⦄ where
  deal_share-span :
      (p : Polynomial) (n i : ℕ)
      → n < u32_bound
      → i < suc n
      → deal_share p n (public_key p.coefficients) i ≡ share_of p.coefficients n i
  unfolding deal_share
  deal_share-span p n i b u =
      rw (as_u32-eq i (omega arith), evaluate-horner p (from_u64 i))
        (ap
          (λ vs. record {
            index = i;
            secret = horner p.coefficients (from_u64 i);
            group_public_key = public_key p.coefficients;
            verification_shares = vs;
          })
          (map-span-congr {A = ℕ × Point} _
            (λ j. (j, basepoint • horner p.coefficients (from_u64 j))) 1 n
            (λ j l' u'. rw (as_u32-eq j (omega arith), evaluate-horner p (from_u64 j)))))

  commit-constant :
      (p : Polynomial)
      → 0 < length p.coefficients
      → index (commit p) 0 ≡ ok (public_key p.coefficients)
  unfolding commit
  commit-constant p h = go p.coefficients h
    where
      go :
          (f : List Scalar)
          → 0 < length f
          → index (map (λ a. basepoint • a) f) 0 ≡ ok (public_key f)
      go [] h = elim h [ ]
      go (a ∷ f) h = ap (λ t. ok (basepoint • t)) (sym (horner-zero a f))

  module _ ⦃d : Digests⦄ where
    length-derive_polynomial :
        (program_cid seed : Text) (t : ℕ)
        → length (derive_polynomial program_cid seed t).coefficients ≡ t
    unfolding derive_polynomial
    length-derive_polynomial program_cid seed t = length-map _ (span 0 t) ∙ length-span 0 t

    -- For a valid configuration the derivation succeeds. Its key and its shares are those of the
    -- derived polynomial, which has `threshold` coefficients and depends on the program, the seed
    -- and the threshold alone.
    pub derive_key-IsSharing :
        (program_cid seed : Text) (config : ThresholdConfig)
        → IsValid config
        → (shares : List KeyShare) × (derive_key program_cid seed config
            ≡ ok (
              public_key (derive_polynomial program_cid seed config.threshold).coefficients,
              shares,
            ))
          × IsSharing
              (derive_polynomial program_cid seed config.threshold).coefficients
              config.total
              shares
          × (length (derive_polynomial program_cid seed config.threshold).coefficients
              ≡ config.threshold)
    unfolding derive_key
    derive_key-IsSharing program_cid seed config v =
        let p = derive_polynomial program_cid seed config.threshold in
        let n = config.total in
        (
          map (share_of p.coefficients n) (span 1 n),
          rw (
            commit-constant p (
                omega
                  (arith, length-derive_polynomial program_cid seed config.threshold, v.positive)),
            map-span-congr (deal_share p n (public_key p.coefficients)) (share_of p.coefficients n)
                1 n (λ i l' u'. deal_share-span p n i v.fits (omega arith)),
          ),
          refl,
          length-derive_polynomial program_cid seed config.threshold,
        )

-- UTF-8 has no byte 0xFF.
abbrev IsUtf8 : Text → Type 0
IsUtf8 = All (λ b. b ≢ 0xFF)

-- Two programs, or two seeds, never have the same key material: the byte 0xFF, which no UTF-8 text
-- contains, ends the program's CID.
pub key_material-injective :
    (cid seed cid' seed' : Text)
    → IsUtf8 cid
    → IsUtf8 cid'
    → key_material cid seed ≡ key_material cid' seed'
    → (cid ≡ cid') × (seed ≡ seed')
unfolding key_material
key_material-injective [] seed [] seed' h h' e = (refl, ground arith)
key_material-injective [] seed (y ∷ cid') seed' h h' e = absurd (h'.0 (ground arith))
key_material-injective (x ∷ cid) seed [] seed' h h' e = absurd (h.0 (ground arith))
key_material-injective (x ∷ cid) seed (y ∷ cid') seed' h h' e =
    let (p, q) = key_material-injective cid seed cid' seed' h.1 h'.1 (cc) in
    let r : x ≡ y = cc in (ap₂ ◌∷◌ r p, q)
