-- ===== src/Scenario/Signing/Rounds.antt =====
-- Both rounds over the shares of a polynomial give a signature that verifies.
use craftsec.Base.{
  ℕ, suc, ◌≤◌, ◌<◌, ◌≡◌, refl, ap, ◌∙◌, some, List, [], ◌∷◌, map, length, get_elem?,
  get_elem?-map-span, length-map, arith,
}
use craftsec.Base.Fresh.{Fresh, Distinct, Below, Below-mono}
use craftsec.Curve.{Curve, Scalar}
use craftsec.Core.External.{Digests, RngCore, State}
use craftsec.Core.Error.{ok, traverse, unwrap, index}
use craftsec.Core.Types.{KeyShare}
use craftsec.Dkg.Sharing.{public_key, share_of, IsSharing}
use craftsec.Signing.Frost.{
  SigningNonce, SigningCommitment, PartialSignature, ThresholdSignature, commitment_of,
  generate_nonces, sign_partial, aggregate, verify,
}
use craftsec.Signing.Frost.Session.{Signer, indices, commitments_of, AllHold, partials_of}
use craftsec.Signing.Frost.Threshold.{threshold_signature-verifies}
use craftsec.Scenario.Signing.{round1, round2, sign_message}

Fresh-suc : (a : ℕ) (l : List ℕ) → Fresh a l → Fresh (suc a) (map suc l)
Fresh-suc a [] f = tt
Fresh-suc a (b ∷ l) f = (λ e. f.0 (omega (arith, e)), Fresh-suc a l f.1)

pub Distinct-suc : (l : List ℕ) → Distinct l → Distinct (map suc l)
Distinct-suc [] d = tt
Distinct-suc (a ∷ l) d = (Fresh-suc a l d.0, Distinct-suc l d.1)

pub Below-suc : (n : ℕ) (l : List ℕ) → Below n l → Below (suc n) (map suc l)
Below-suc n [] b = tt
Below-suc n (a ∷ l) b = (omega (arith, b.0), Below-suc n l b.1)

module _ ⦃c : Curve⦄ where
  -- Position `i` of a sharing is the share of participant `i + 1`.
  pub index-IsSharing :
      (f : List Scalar) (n i : ℕ) (shares : List KeyShare)
      → IsSharing f n shares
      → i < n
      → index shares i ≡ ok (share_of f n (suc i))
  index-IsSharing f n i shares sharing h =
      ap (λ l. index l i) sharing
      ∙ ap unwrap (get_elem?-map-span (share_of f n) 1 n i h)
      ∙ ap (λ k. ok (share_of f n k)) (omega arith)

  -- What `g` makes of the signers is found in a list from the place `idx` on.
  abbrev pub Found : {A : Type 0} → (Signer → A) → List A → ℕ → List Signer → Type 0
  Found g found idx [] = Unit
  Found g found idx (s ∷ drawn) = (get_elem? found idx ≡ some (g s)) × Found g found (suc idx) drawn

  Found-cons :
      {A : Type 0} (g : Signer → A) (a : A) (found : List A) (idx : ℕ) (drawn : List Signer)
      → Found g found idx drawn
      → Found g (a ∷ found) (suc idx) drawn
  Found-cons g a found idx [] h = tt
  Found-cons g a found idx (s ∷ drawn) h = (h.0, Found-cons g a found (suc idx) drawn h.1)

  pub Found-self :
      {A : Type 0} (g : Signer → A) (drawn : List Signer) → Found g (map g drawn) 0 drawn
  Found-self g [] = tt
  Found-self g (s ∷ drawn) = (refl, Found-cons g (g s) (map g drawn) 0 drawn (Found-self g drawn))

  abbrev drawn_pair : Signer → SigningNonce × SigningCommitment
  drawn_pair s = (s.1, commitment_of s.1)

  nonces-drawn :
      (drawn : List Signer) → map (λ p. p.0) (map drawn_pair drawn) ≡ map (λ s. s.1) drawn
  nonces-drawn [] = refl
  nonces-drawn (s ∷ drawn) = ap (λ l. s.1 ∷ l) (nonces-drawn drawn)

  commitments-drawn :
      (drawn : List Signer) → map (λ p. p.1) (map drawn_pair drawn) ≡ commitments_of drawn
  commitments-drawn [] = refl
  commitments-drawn (s ∷ drawn) = ap (λ l. commitment_of s.1 ∷ l) (commitments-drawn drawn)

  module _ ⦃g : RngCore⦄ (f : List Scalar) (n : ℕ) where
    -- The signers with the nonces that round 1 draws.
    unfoldable pub draw : List ℕ → State → List Signer × State
    draw [] rng = ([], rng)
    draw (i ∷ signers) rng =
        let (pair, rng') = generate_nonces (suc i) rng in
        let rest = draw signers rng' in ((share_of f n (suc i), pair.0) ∷ rest.0, rest.1)

    indices-draw : (signers : List ℕ) (rng : State) → indices (draw signers rng).0 ≡ map suc signers
    unfolding draw
    indices-draw [] rng = refl
    indices-draw (i ∷ signers) rng =
        ap (λ l. suc i ∷ l) (indices-draw signers (generate_nonces (suc i) rng).1)

    AllHold-draw : (signers : List ℕ) (rng : State) → AllHold f (draw signers rng).0
    unfolding draw generate_nonces
    AllHold-draw [] rng = tt
    AllHold-draw (i ∷ signers) rng =
        ((refl, refl, refl), AllHold-draw signers (generate_nonces (suc i) rng).1)

    module _ ⦃d : Digests⦄ where
      -- The signers that are drawn for distinct positions, at least as many as the polynomial has
      -- coefficients, make partial signatures whose aggregate verifies.
      pub draw-verifies :
          (signers message : List ℕ) (rng : State)
          → Below n signers
          → Distinct signers
          → length f ≤ length signers
          → n < c.order
          → let drawn = (draw signers rng).0 in
            (partials : List PartialSignature) × (partials_of message drawn ≡ ok partials)
            × (verify (aggregate message (commitments_of drawn) partials) (public_key f) message
                ≡ ok tt)
      draw-verifies signers message rng b u l small =
          let drawn = (draw signers rng).0 in
          let same = indices-draw signers rng in
          threshold_signature-verifies f message drawn (AllHold-draw signers rng)
            (omega (
              arith,
              l,
              ap length same,
              length-map suc signers,
              length-map (λ (s : Signer). s.0.index) drawn,
            ))
            (rw same (Distinct-suc signers u))
            (rw same
              (Below-mono (suc n) c.order (map suc signers) (omega arith) (Below-suc n signers b)))

    module _ (shares : List KeyShare) (sharing : IsSharing f n shares) where
      round1_lem :
          (signers : List ℕ) (rng : State)
          → Below n signers
          → round1 shares signers rng
            ≡ ok (map drawn_pair (draw signers rng).0, (draw signers rng).1)
      unfolding round1 draw generate_nonces
      round1_lem [] rng b = refl
      round1_lem (i ∷ signers) rng b =
          rw
            (
              index-IsSharing f n i shares sharing b.0,
              round1_lem signers (generate_nonces (suc i) rng).1 b.1,
            )
            refl

      module _ ⦃d : Digests⦄ where
        round2_lem :
            (message : List ℕ) (ms : List SigningCommitment) (nonces : List SigningNonce) (idx : ℕ)
            (signers : List ℕ) (rng : State)
            → Below n signers
            → Found (λ s. s.1) nonces idx (draw signers rng).0
            → round2 shares nonces message ms idx signers
              ≡ traverse (λ s. sign_partial s.0 s.1 message ms) (draw signers rng).0
        unfolding round2 draw traverse sign_partial
        round2_lem message ms nonces idx [] rng b h = refl
        round2_lem message ms nonces idx (i ∷ signers) rng b h =
            rw
              (
                index-IsSharing f n i shares sharing b.0,
                h.0,
                round2_lem message ms nonces (suc idx) signers (generate_nonces (suc i) rng).1 b.1
                    h.1,
              )
              refl

        -- Signers at distinct positions of a sharing, at least as many as the polynomial has
        -- coefficients, make a signature of any message that verifies under the public key.
        pub sign_message_verifies :
            (signers message : List ℕ) (rng : State)
            → Below n signers
            → Distinct signers
            → length f ≤ length signers
            → n < c.order
            → (sig : ThresholdSignature) × (sign_message shares signers message rng ≡ ok sig)
              × (verify sig (public_key f) message ≡ ok tt)
        unfolding sign_message
        sign_message_verifies signers message rng b u l small =
            let drawn = (draw signers rng).0 in
            let (partials, signed, verified) = draw-verifies signers message rng b u l small in
            (
              aggregate message (commitments_of drawn) partials,
              rw
                  (
                    round1_lem signers rng b,
                    nonces-drawn drawn,
                    commitments-drawn drawn,
                    round2_lem message (commitments_of drawn) (map (λ s. s.1) drawn) 0 signers rng b
                        (Found-self (λ s. s.1) drawn),
                    signed,
                  )
                  refl,
              verified,
            )
