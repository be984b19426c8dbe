-- ===== src/Prelude/Undefined.antt =====
-- The result of a C function: a value, or undefined behaviour (an access outside an object, through
-- NULL or to freed memory).
use mathlib.Core.Path.{◌≡◌, refl, sym, ◌∙◌, subst}
use mathlib.Core.Bool.{Bool, true, false}
use lingi1341_projet.Prelude.Tests.{if◌then◌else◌}

pub data Outcome {ℓ} (A : Type ℓ) : Type ℓ where
  returns : A → Outcome A
  undefined : Outcome A

infixl 5 ◌>>=◌
abbrev pub ◌>>=◌ {ℓ κ} : {A : Type ℓ} {B : Type κ} → Outcome A → (A → Outcome B) → Outcome B
returns a >>= f = f a
undefined >>= f = undefined

pub returns-injective {ℓ} : {A : Type ℓ} {a b : A} → returns a ≡ returns b → a ≡ b
returns-injective e = cc

-- Inversion of a bind that returns.
pub >>=-eq-returns {ℓ κ} :
    {A : Type ℓ} {B : Type κ} (m : Outcome A) (f : A → Outcome B) {b : B}
    → (m >>= f) ≡ returns b
    → (a : A) × (m ≡ returns a) × (f a ≡ returns b)
>>=-eq-returns (returns a) f h = (a, refl, h)
>>=-eq-returns undefined f h = cc

-- The call returns, with a result that has the property.
abbrev pub Yields {ℓ κ} : {A : Type ℓ} → (A → Type κ) → Outcome A → Type (ℓ ⊔ κ)
Yields {A} Q call = (a : A) × (call ≡ returns a) × Q a

-- Two properties of one call.
pub Yields-both {ℓ κ κ'} :
    {A : Type ℓ} {P : A → Type κ} {Q : A → Type κ'} {call : Outcome A}
    → Yields P call
    → Yields Q call
    → Yields (λ a. P a × Q a) call
Yields-both {Q} (a, e, p) (b, f, q) = (a, e, (p, subst Q (returns-injective (sym f ∙ e)) q))

-- Calls in sequence, and on a test.
pub Yields-bind {ℓ κ κ' κ''} :
    {A : Type ℓ} {B : Type κ} {P : A → Type κ'} {Q : B → Type κ''} (m : Outcome A)
    (f : A → Outcome B)
    → Yields P m
    → ((a : A) → P a → Yields Q (f a))
    → Yields Q (m >>= f)
Yields-bind m f (a, e, p) h = rw e (h a p)

pub Yields-if {ℓ κ} :
    {A : Type ℓ} {Q : A → Type κ} (b : Bool) {x y : Outcome A}
    → (b ≡ true → Yields Q x)
    → (b ≡ false → Yields Q y)
    → Yields Q (if b then x else y)
Yields-if true h k = h refl
Yields-if false h k = k refl

-- If the call returns, its result has the property.
abbrev pub Always {ℓ κ} : {A : Type ℓ} → (A → Type κ) → Outcome A → Type (ℓ ⊔ κ)
Always {A} Q call = (a : A) → call ≡ returns a → Q a

pub Always-returns {ℓ κ} : {A : Type ℓ} (Q : A → Type κ) (a : A) → Q a → Always Q (returns a)
Always-returns Q a q b e = subst Q (returns-injective e) q

pub Always-undefined {ℓ κ} : {A : Type ℓ} (Q : A → Type κ) → Always Q undefined
Always-undefined Q a e = cc

pub Always-bind {ℓ κ κ' κ''} :
    {A : Type ℓ} {B : Type κ} (P : A → Type κ') (Q : B → Type κ'') (m : Outcome A)
    (f : A → Outcome B)
    → Always P m
    → ((a : A) → P a → Always Q (f a))
    → Always Q (m >>= f)
Always-bind P Q (returns a) f h k = k a (h a refl)
Always-bind P Q undefined f h k = Always-undefined Q

pub Always-if {ℓ κ} :
    {A : Type ℓ} (Q : A → Type κ) (b : Bool) (x y : Outcome A)
    → Always Q x
    → Always Q y
    → Always Q (if b then x else y)
Always-if Q true x y h k = h
Always-if Q false x y h k = k
