-- ===== src/Core/Types/Config.antt =====
-- The constructor of crates/core/src/types.rs on every pair of arguments.
use Prim.Native.Nat.{ℕ, ◌<◌}
use craftsec.Base.{◌≡◌, ◌⊎◌, inl, inr, u32_bound, arith, Bool-cases, ◌==◌, ltb, ◌||◌}
use craftsec.Core.Error.{ok, err, invalid_threshold}
use craftsec.Core.Types.{new_config, IsValid}

-- For every `u32` total the constructor decides validity: it returns the configuration of its
-- arguments if that is valid, and `InvalidThreshold` with the arguments if it is not.
pub new_config_decides :
    (threshold total : ℕ)
    → total < u32_bound
    → (IsValid (record { threshold = threshold; total = total })
        × (new_config threshold total ≡ ok (record { threshold = threshold; total = total })))
      ⊎ ((IsValid (record { threshold = threshold; total = total }) → ⊥)
          × (new_config threshold total ≡ err (invalid_threshold threshold total)))
unfolding new_config
new_config_decides threshold total b = elim (Bool-cases (threshold == 0 || ltb total threshold)) [
  | inl bad ↦ inr ((λ v. ground (arith, bad, v.positive, v.within)), rw bad)
  | inr good ↦
      inl (
        record { positive = ground (arith, good); within = ground (arith, good); fits = b },
        rw good,
      )
]
