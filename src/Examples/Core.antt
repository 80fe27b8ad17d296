-- ===== src/Examples/Core.antt =====
-- Configurations, receipts and attestations at concrete inputs.
use craftsec.Base.{ℕ, ◌≡◌, refl, List, [], text, replicate, arith}
use craftsec.Core.External.{sha256}
use craftsec.Core.Receipt.{AttestationReceipt, new_receipt, signing_bytes}
use craftsec.Core.Receipt.Binding.{signing_bytes-injective}
use craftsec.Examples.World.{sums}

signing_bytes-injective_example :
    (text "Qm" ≡ text "Qm")
    × (sha256 (text "args") ≡ sha256 (text "sgra"))
    × (sha256 (text "result") ≡ sha256 (text "tluser"))
    × (◌≡◌ {A = ℕ} 1000 1000)
unfolding new_receipt signing_bytes
signing_bytes-injective_example =
    signing_bytes-injective (text "Qm") (text "Qm") (text "args") (text "sgra") (text "result")
      (text "tluser") 1000 1000 (omega arith) (omega arith) refl

abbrev ones : List ℕ
ones = replicate 32 1

abbrev twos : List ℕ
twos = replicate 32 2

abbrev receipt : AttestationReceipt
receipt = record {
  program_cid = text "Qm";
  args_hash = text "00";
  result_hash = text "00";
  timestamp = 1000;
  node_signatures = [];
}
