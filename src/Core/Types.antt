-- ===== src/Core/Types.antt =====
-- crates/core/src/types.rs. Integers of type `u32` and `u64` are natural numbers.
pub mod Config
use craftsec.Base.{
  ℕ, ◌≤◌, ◌<◌, ◌||◌, List, map, ◌++◌, Text, text, u32_bound, ltb, ◌==◌, if◌then◌else◌,
}
use craftsec.Curve.{Curve, Scalar, Point}
use craftsec.Core.External.{Json, Value, Float}
use craftsec.Core.Error.{invalid_threshold, Result, ok, err}

pub record ThresholdConfig : Type 0 where
  pub threshold : ℕ
  pub total : ℕ

-- `ThresholdConfig::new`.
unfoldable pub new_config : ℕ → ℕ → Result ThresholdConfig
new_config threshold total =
    if threshold == 0 || ltb total threshold
    then err (invalid_threshold threshold total)
    else ok (record { threshold = threshold; total = total })

-- What `ThresholdConfig::new` ensures of `u32` arguments.
pub record IsValid (config : ThresholdConfig) : Type 0 where
  pub positive : 0 < config.threshold
  pub within : config.threshold ≤ config.total
  pub fits : config.total < u32_bound

module _ ⦃c : Curve⦄ where
  pub record KeyShare : Type 0 where
    pub index : ℕ
    pub secret : Scalar
    pub group_public_key : Point
    pub verification_shares : List (ℕ × Point)

module _ ⦃j : Json⦄ where
  pub record AttestationRequest : Type 0 where
    pub program_cid : Text
    pub requester : Text
    pub args : Value
    pub request_id : Text

  pub record MultiAttestationRequest : Type 0 where
    pub program_cids : List Text
    pub requester : Text
    pub args : Value
    pub request_id : Text

  -- `to_individual_requests`.
  unfoldable pub to_individual_requests : MultiAttestationRequest → List AttestationRequest
  to_individual_requests m =
      map
        (λ cid. record {
          program_cid = cid;
          requester = m.requester;
          args = m.args;
          request_id = m.request_id ++ (text "-" ++ cid);
        })
        m.program_cids

  pub record Transaction : Type 0 where
    pub seq : ℕ
    pub prev_hash : Text
    pub sender : Text
    pub recipient : Text
    pub amount : Float
    pub asset : Text
    pub timestamp : ℕ
    pub program_cid : Text
    pub user_sig : Text

  pub data AttestationResult : Type 0 where
    valid : Transaction → AttestationResult
    invalid : Text → AttestationResult

  -- `serde_json::to_vec` of a transaction, which does not fail.
  pub record Serde : Type 0 where
    pub to_vec : Transaction → List ℕ

  -- `Transaction::signing_bytes`.
  unfoldable pub signing_bytes : ⦃s : Serde⦄ → Transaction → List ℕ
  signing_bytes ⦃s⦄ tx = s.to_vec tx

  pub data MultiAttestationResult : Type 0 where
    -- `transaction` and `program_signatures`.
    all_valid : Transaction → List (Text × List ℕ) → MultiAttestationResult
    -- `program_cid` and `reason`.
    one_invalid : Text → Text → MultiAttestationResult

pub record ProgramSpec : Type 0 where
  pub cid : Text
  pub name : Text
  pub version : Text
  pub threshold : ThresholdConfig
