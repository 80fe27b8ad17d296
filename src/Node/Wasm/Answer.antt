-- ===== src/Node/Wasm/Answer.antt =====
-- The answer that a guest leaves in its memory is the one that the host reads.
use Prim.Native.Nat.{◌+◌}
use craftsec.Base.{
  ℕ, ◌≤◌, ◌<◌, ◌≡◌, refl, List, Text, text, length, text_eq, take, u32_bound, arith, some, inl,
}
use craftsec.Core.External.{Json, Value}
use craftsec.Core.Error.{ok, panic}
use craftsec.Core.Types.{valid, invalid, Transaction}
use craftsec.Node.Executor.{value_at}
use craftsec.Node.Wasm.Memory.{pack, drop}
use craftsec.Node.Wasm.Memory.Written.{unpack-pack, slice_decides}
use craftsec.Node.Wasm.Host.{Utf8}
use craftsec.Node.Wasm.Run.{WireJson, read_status, read_answer}

module _ ⦃j : Json⦄ ⦃s : WireJson⦄ ⦃u : Utf8⦄ where
  -- The bytes of an answer at `ptr` in a guest's memory, in range and below 2^32, with a status of
  -- `valid` or `invalid`: the host reads the transaction that the answer carries if that can be
  -- parsed, or the rejection with the answer's reason.
  pub read_answer-pack :
      (memory bytes : List ℕ) (ptr : ℕ) (answer : Text) (result : Value)
      → ptr + length bytes < u32_bound
      → ptr + length bytes ≤ length memory
      → take (length bytes) (drop ptr memory) ≡ bytes
      → u.from_utf8 bytes ≡ inl answer
      → s.from_str answer ≡ inl result
      → ((tx : Transaction)
          → j.as_str (value_at result (text "status")) ≡ some (text "valid")
          → s.from_value (value_at result (text "transaction")) ≡ inl tx
          → read_answer (pack ptr (length bytes)) memory ≡ ok (valid tx))
        × ((reason : Text)
            → j.as_str (value_at result (text "status")) ≡ some (text "invalid")
            → j.as_str (value_at result (text "reason")) ≡ some reason
            → read_answer (pack ptr (length bytes)) memory ≡ ok (invalid reason))
  unfolding read_answer read_status text_eq
  read_answer-pack memory bytes ptr answer result small fits there utf8 parsed = (
    (λ tx status value. rw (reads, status, value) refl),
    λ reason status given. rw (reads, status, given) refl,
  )
    where
      reads :
          read_answer (pack ptr (length bytes)) memory
          ≡ read_status result (j.as_str (value_at result (text "status")))
      reads =
          rw
            (
              unpack-pack ptr (length bytes) (omega arith) (omega arith),
              (slice_decides memory ptr (length bytes)).0 small fits,
              there,
              utf8,
              parsed,
            )
            refl

  -- A packed result that points outside of the guest's memory makes the host panic.
  pub read_answer_out_of_range :
      (memory : List ℕ) (ptr len : ℕ)
      → ptr < u32_bound
      → len < u32_bound
      → length memory < ptr + len
      → read_answer (pack ptr len) memory ≡ panic
  unfolding read_answer
  read_answer_out_of_range memory ptr len h k out =
      rw (unpack-pack ptr len h k, (slice_decides memory ptr len).1 out) refl
