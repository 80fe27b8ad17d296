-- ===== src/Core/Action/Inversion.antt =====
-- A chain of calls that ends well made every call of it well.
use craftsec.Base.{◌≡◌, refl}
use craftsec.Core.Error.{Result, ok, err, panic}
use craftsec.Core.Action.{Action, after}

-- The first call of a successful chain succeeded.
pub after-eq-ok :
    {T A B : Type 0} (f : A → Action T B) (p : Result A × T) {b : B}
    → (after f p).0 ≡ ok b
    → (a : A) × (t : T) × (p ≡ (ok a, t)) × ((f a t).0 ≡ ok b)
after-eq-ok f (ok a, t) h = (a, t, refl, h)
after-eq-ok f (err e, t) h = cc
after-eq-ok f (panic, t) h = cc
