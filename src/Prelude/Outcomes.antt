-- ===== src/Prelude/Outcomes.antt =====
-- A predicate on the outcome of a step that may not happen.
use mathlib.Core.Path.{◌≡◌, refl}
use mathlib.Core.Bool.{Bool, true, false}
use mathlib.Core.Option.{Option, none, some}
use native.Mathlib.Omega.{arith}
use blueprint.Prelude.Tests.{if◌then◌else◌}

abbrev pub Holds : {A : Type 0} → (A → Type 0) → Option A → Type 0
Holds P none = Unit
Holds P (some a) = P a

pub Holds-if :
    {A : Type 0} (P : A → Type 0) (b : Bool) (a : A)
    → (b ≡ true → P a)
    → Holds P (if b then some a else none)
Holds-if P true a h = h refl
Holds-if P false a h = tt

pub Holds-elim :
    {A B : Type 0} (P : A → Type 0) (o : Option B) (f : B → Option A)
    → ((b : B) → o ≡ some b → Holds P (f b))
    → Holds P (elim o [ none ↦ none | some b ↦ f b ])
Holds-elim P none f h = tt
Holds-elim P (some b) f h = h b refl

pub Holds-some : {A : Type 0} (P : A → Type 0) (o : Option A) (a : A) → o ≡ some a → Holds P o → P a
Holds-some P none a e h = ground arith
Holds-some P (some b) a e h = let same : b ≡ a = cc in rw same at h

pub Holds-unless :
    {A : Type 0} (P : A → Type 0) (b : Bool) (o : Option A)
    → (b ≡ false → Holds P o)
    → Holds P (if b then none else o)
Holds-unless P true o h = tt
Holds-unless P false o h = h refl
