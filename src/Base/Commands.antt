-- ===== src/Base/Commands.antt =====
-- Commands over a mutable state: a run ends with a value and a state, in undefined behaviour
-- (`fault`), for want of fuel, or with the exit of the program in a state. `Returns` is total correctness of a run.
use mathlib.Core.Option.{Option, none, some}
use mathlib.Core.Path.{◌≡◌, refl}

pub data Run (S A : Type 0) : Type 0 where
  ok : A → S → Run S A
  fault : Run S A
  out_of_fuel : Run S A
  exited : S → Run S A

abbrev pub Cmd : Type 0 → Type 0 → Type 0
Cmd S A = S → Run S A

abbrev pub pure : {S A : Type 0} → A → Cmd S A
pure a s = ok a s

abbrev pub and_then : {S A B : Type 0} → Run S A → (A → Cmd S B) → Run S B
and_then (ok a s) k = k a s
and_then fault k = fault
and_then out_of_fuel k = out_of_fuel
and_then (exited s) k = exited s

infixl 5 ◌>>=◌ ◌>>◌
abbrev pub ◌>>=◌ : {S A B : Type 0} → Cmd S A → (A → Cmd S B) → Cmd S B
◌>>=◌ m k s = and_then (m s) k

abbrev pub ◌>>◌ : {S A B : Type 0} → Cmd S A → Cmd S B → Cmd S B
m >> n = m >>= λ _. n

abbrev pub read : {S : Type 0} → Cmd S S
read s = ok s s

abbrev pub modify : {S : Type 0} → (S → S) → Cmd S (Unit {0})
modify f s = ok tt (f s)

-- A value that the code dereferences without a test.
abbrev pub or_fault : {S A : Type 0} → Option A → Cmd S A
or_fault none s = fault
or_fault (some a) s = ok a s

pub data Returns {S A : Type 0} (P : A → S → Type 0) : Run S A → Type 0 where
  returns : {a : A} {s : S} → P a s → Returns P (ok a s)

module _ {S A B : Type 0} {P : A → S → Type 0} {Q : B → S → Type 0} where
  pub Returns-bind :
      {r : Run S A} {k : A → Cmd S B}
      → Returns P r
      → ((a : A) (s : S) → P a s → Returns Q (k a s))
      → Returns Q (and_then r k)
  Returns-bind (returns p) next = next _ _ p

module _ {S A : Type 0} {P Q : A → S → Type 0} where
  pub Returns-mono : {r : Run S A} → Returns P r → ((a : A) (s : S) → P a s → Q a s) → Returns Q r
  Returns-mono (returns p) weaken = returns (weaken _ _ p)

module _ {S A B : Type 0} where
  -- Continuations that agree at every result.
  pub and_then-next :
      (r : Run S A) {k l : A → Cmd S B}
      → ((a : A) (s : S) → k a s ≡ l a s)
      → and_then r k ≡ and_then r l
  and_then-next (ok a s) same = same a s
  and_then-next fault same = refl
  and_then-next out_of_fuel same = refl
  and_then-next (exited s) same = refl

pub and_then-pure : {S : Type 0} (r : Run S (Unit {0})) → and_then r (λ _. pure tt) ≡ r
and_then-pure (ok a s) = refl
and_then-pure fault = refl
and_then-pure out_of_fuel = refl
and_then-pure (exited s) = refl

-- Partial correctness of a run that has fuel enough: it ends in a value with a property, or in
-- undefined behaviour.
pub data Ends {S A : Type 0} (P : A → S → Type 0) : Run S A → Type 0 where
  gives : {a : A} {s : S} → P a s → Ends P (ok a s)
  undefined : Ends P fault

module _ {S A B : Type 0} {P : A → S → Type 0} {Q : B → S → Type 0} where
  pub Ends-bind :
      {r : Run S A} {k : A → Cmd S B}
      → Ends P r
      → ((a : A) (s : S) → P a s → Ends Q (k a s))
      → Ends Q (and_then r k)
  Ends-bind (gives p) next = next _ _ p
  Ends-bind undefined next = undefined

module _ {S A : Type 0} {P Q : A → S → Type 0} where
  pub Ends-weaken : {r : Run S A} → Ends P r → ((a : A) (s : S) → P a s → Q a s) → Ends Q r
  Ends-weaken (gives p) weaken = gives (weaken _ _ p)
  Ends-weaken undefined weaken = undefined

pub or_fault-Ends :
    {S A : Type 0} (o : Option A) (s : S) → Ends (λ a t. (t ≡ s) × (o ≡ some a)) (or_fault o s)
or_fault-Ends none s = undefined
or_fault-Ends (some a) s = gives (refl, refl)
