-- ===== src/Common/Options.antt =====
-- Calls that may fail to return, as options: one after the other, and what holds of their results.
use mathlib.Core.Path.{◌≡◌, refl}
use mathlib.Core.Option.{Option, none, some}

infixl 5 ◌>>=◌
abbrev pub ◌>>=◌ : {A B : Type 0} → Option A → (A → Option B) → Option B
none >>= f = none
some a >>= f = f a

-- The call returns, with a result of which `P` holds.
abbrev pub Returns : {R : Type 0} → Option R → (R → Type 0) → Type 0
Returns none P = ⊥
Returns (some r) P = P r

pub Returns-map :
    {R : Type 0} (o : Option R) {P Q : R → Type 0}
    → Returns o P
    → ((r : R) → P r → Q r)
    → Returns o Q
Returns-map none p f = p
Returns-map (some r) p f = f r p

pub Returns-result :
    {R : Type 0} (o : Option R) {P : R → Type 0} → Returns o P → (r : R) × (o ≡ some r) × P r
Returns-result none p = absurd p
Returns-result (some r) p = (r, refl, p)
