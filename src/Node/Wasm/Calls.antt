-- ===== src/Node/Wasm/Calls.antt =====
-- Calls inside of a guest, which change a state `H`. A panic of the guest is a trap.
use craftsec.Base.{◌≡◌, refl}
use craftsec.Core.Error.{Result, ok, err, panic}
use craftsec.Node.Wasm.Memory.{Outcome, returned, trapped, panicked}

abbrev pub Call : Type 0 → Type 0 → Type 0
Call H A = H → Outcome A × H

-- What follows a call that returned.
abbrev pub continue : {H A B : Type 0} → (A → Call H B) → Outcome A × H → Outcome B × H
continue next (returned a, h) = next a h
continue next (trapped e, h) = (trapped e, h)
continue next (panicked, h) = (panicked, h)

infixl 5 ◌>>=◌ ◌>>◌
abbrev pub ◌>>=◌ : {H A B : Type 0} → Call H A → (A → Call H B) → Call H B
◌>>=◌ call next h = continue next (call h)

abbrev pub ◌>>◌ : {H B : Type 0} → Call H (Unit {0}) → Call H B → Call H B
call >> next = call >>= λ _. next

abbrev pub pure : {H A : Type 0} → A → Call H A
pure a h = (returned a, h)

-- A call with the state in its result, which stays when the call does not return.
abbrev pub with_state : {H A : Type 0} → H → Outcome (A × H) → Outcome A × H
with_state h (returned (a, h')) = (returned a, h')
with_state h (trapped e) = (trapped e, h)
with_state h panicked = (panicked, h)

-- A call of the host: its panic ends the guest too.
abbrev pub host_outcome : {A : Type 0} → Result A → Outcome A
host_outcome (ok a) = returned a
host_outcome (err e) = panicked
host_outcome panic = panicked

-- A call as the host sees it.
abbrev pub joined : {H A : Type 0} → Outcome A × H → Outcome (A × H)
joined (returned a, h) = returned (a, h)
joined (trapped e, h) = trapped e
joined (panicked, h) = panicked

-- A chain that returned made its first call return.
pub continue-eq-returned :
    {H A B : Type 0} (next : A → Call H B) (p : Outcome A × H) {b : B}
    → (continue next p).0 ≡ returned b
    → (a : A) × (h : H) × (p ≡ (returned a, h)) × ((next a h).0 ≡ returned b)
continue-eq-returned next (returned a, h) e = (a, h, refl, e)
continue-eq-returned next (trapped t, h) e = cc
continue-eq-returned next (panicked, h) e = cc
