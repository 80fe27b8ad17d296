-- ===== src/Cli/Attests.antt =====
-- The commands do not panic, and an attestation succeeds when the transfer program accepts.
use craftsec.Base.{
  ℕ, suc, true, ◌≡◌, ◌<◌, refl, ap, ◌∙◌, List, ◌++◌, length, length-take, length-map, leb, Text,
  text, text_eq_refl, take, arith,
}
use craftsec.Curve.{Curve}
use craftsec.Core.External.{Digests, RngCore, State, Json, Value, sha256, hex_encode}
use craftsec.Core.Error.{ok}
use craftsec.Core.Types.{Serde, Transaction, valid, new_config, KeyShare, IsValid}
use craftsec.Dkg.Sharing.{public_key, IsSharing}
use craftsec.Dkg.Pdk.{derive_polynomial}
use craftsec.Dkg.Pdk.Derived.{derive_key-IsSharing}
use craftsec.Node.Executor.{transfer_validator, execute, new_registry}
use craftsec.Node.Executor.Transfers.{execute-register}
use craftsec.Node.Node.{registry_executor, new_node}
use craftsec.Client.Attest.{AttestedTransaction, new_client, verify_attested}
use craftsec.Client.Ceremony.{sharing_attests}
use craftsec.Cli.{compute_cid, program_key, cmd_attest, cli_request, registry_for}

module _ ⦃d : Digests⦄ where
  -- The CID of any bytes is computed without a panic: the prefix and 16 digits.
  pub compute_cid_total :
      (bytes : List ℕ) → (cid : Text) × (compute_cid bytes ≡ ok cid) × (length cid ≡ 19)
  unfolding compute_cid
  compute_cid_total bytes =
      let enough : leb 16 (length (hex_encode (sha256 bytes))) ≡ true =
        ground (arith, d.length-hex_encode (sha256 bytes), d.length-sha256 bytes) in
      (
        text "Qm_" ++ take 16 (hex_encode (sha256 bytes)),
        rw enough refl,
        ap (λ k. suc (suc (suc k)))
            (length-take 16 (hex_encode (sha256 bytes))
              (omega (arith, d.length-hex_encode (sha256 bytes), d.length-sha256 bytes))),
      )

  two_of_three-IsValid : IsValid (record { threshold = 2; total = 3 })
  two_of_three-IsValid = record { positive = omega arith; within = omega arith; fits = omega arith }

  module _ ⦃c : Curve⦄ where
    pub program_key-IsSharing :
        (program_cid seed : Text)
        → (shares : List KeyShare) × (program_key program_cid seed
            ≡ ok (public_key (derive_polynomial program_cid seed 2).coefficients, shares))
          × IsSharing (derive_polynomial program_cid seed 2).coefficients 3 shares
          × (length (derive_polynomial program_cid seed 2).coefficients ≡ 2)
    unfolding program_key new_config
    program_key-IsSharing program_cid seed =
        let (shares, e, sharing, size) =
          derive_key-IsSharing program_cid seed _ two_of_three-IsValid in
        (shares, rw e refl, sharing, size)

    module _ ⦃g : RngCore⦄ ⦃j : Json⦄ ⦃s : Serde⦄ where
      -- The registry of the command runs the transfer program on its requests.
      registry_for-execute :
          (program_cid request_id : Text) (args : Value)
          → execute (registry_for program_cid) (cli_request program_cid args request_id)
            ≡ transfer_validator (cli_request program_cid args request_id)
      unfolding cli_request
      registry_for-execute program_cid request_id args =
          execute-register new_registry program_cid transfer_validator
            (cli_request program_cid args request_id)
          ∙ rw (text_eq_refl program_cid) refl

      -- If the transfer program accepts the request that `cmd_attest` makes of its arguments, and
      -- the group order is above 3, the command gets that transaction attested, and the result
      -- verifies under the public key of the program's polynomial for the seed `main`, which it
      -- carries.
      pub cmd_attest_total :
          (program_cid request_id : Text) (args : Value) (rng : State) (tx : Transaction)
          → 3 < c.order
          → transfer_validator (cli_request program_cid args request_id) ≡ ok (valid tx)
          → (a : AttestedTransaction) × (cmd_attest program_cid args request_id rng ≡ ok a)
            × (verify_attested a ≡ ok tt)
            × (a.group_public_key
                ≡ public_key (derive_polynomial program_cid (text "main") 2).coefficients)
            × (a.transaction ≡ tx)
      unfolding cmd_attest new_client
      cmd_attest_total program_cid request_id args rng tx small h =
          let (shares, e, sharing, size) = program_key-IsSharing program_cid (text "main") in
          let f = (derive_polynomial program_cid (text "main") 2).coefficients in
          let (a, answer, accepted, carried, returned) =
            sharing_attests (cli_request program_cid args request_id) (registry_for program_cid) tx
              f 3 2 shares rng (registry_for-execute program_cid request_id args ∙ h) sharing
              (omega (arith, size)) (omega arith) (omega arith) small in
          let count =
            length-map (λ k. new_node k (registry_for program_cid)) shares ∙ ap length sharing in
          (a, rw e (rw count at answer), accepted, carried, returned)
