-- ===== src/Base/Results.antt =====
-- What a C++ call comes to: a value, an exception, undefined behaviour, or (in the model only) a
-- loop that was not given enough fuel. Undefined behaviour of std::isdigit on a negative char stands
-- apart as `negative_char`.
use mathlib.Core.Path.{◌≡◌, refl, subst}
use mathlib.Core.Logic.{◌≢◌}
use mathlib.Core.Bool.{Bool, true, false}
use dht_hunter.Base.Tests.{if◌then◌else◌}

-- The standard exceptions that the code throws or lets through.
pub data Exception : Type 0 where
  runtime_error invalid_argument out_of_range length_error bad_variant_access : Exception

pub data Result {ℓ} (A : Type ℓ) : Type ℓ where
  ok : A → Result A
  throw : Exception → Result A
  undefined : Result A
  negative_char : Result A
  out_of_fuel : Result A

infixl 5 ◌>>=◌ ◌>>◌
abbrev pub ◌>>=◌ {ℓ κ} : {A : Type ℓ} {B : Type κ} → Result A → (A → Result B) → Result B
ok a >>= f = f a
throw e >>= f = throw e
undefined >>= f = undefined
negative_char >>= f = negative_char
out_of_fuel >>= f = out_of_fuel

abbrev pub ◌>>◌ {ℓ κ} : {A : Type ℓ} {B : Type κ} → Result A → Result B → Result B
m >> k = m >>= λ _. k

-- The call returns a value with `P`, or throws: it neither runs on nor has undefined behaviour.
pub data Ensures {ℓ κ} {A : Type ℓ} (P : A → Type κ) : Result A → Type (ℓ ⊔ κ) where
  returns : {a : A} → P a → Ensures P (ok a)
  throws : {e : Exception} → Ensures P (throw e)

module _ {ℓ κ} {A : Type ℓ} {P : A → Type κ} where
  pub Ensures-ok : {m : Result A} {a : A} → Ensures P m → m ≡ ok a → P a
  Ensures-ok (returns h) e = subst P (cc) h
  Ensures-ok throws e = cc

  pub Ensures-undefined : {m : Result A} → Ensures P m → m ≢ undefined
  Ensures-undefined (returns h) = cc
  Ensures-undefined throws = cc

  pub Ensures-out_of_fuel : {m : Result A} → Ensures P m → m ≢ out_of_fuel
  Ensures-out_of_fuel (returns h) = cc
  Ensures-out_of_fuel throws = cc

  pub Ensures-if :
      (test : Bool) {m k : Result A}
      → (test ≡ true → Ensures P m)
      → (test ≡ false → Ensures P k)
      → Ensures P (if test then m else k)
  Ensures-if true hm hk = hm refl
  Ensures-if false hm hk = hk refl

  pub Ensures-weaken {κ'} :
      {Q : A → Type κ'} {m : Result A} → Ensures P m → ((a : A) → P a → Q a) → Ensures Q m
  Ensures-weaken (returns {a} h) weaken = returns (weaken a h)
  Ensures-weaken throws weaken = throws

  pub Ensures-cases : {m : Result A} → Ensures P m → (a : A) → m ≡ ok a → P a
  Ensures-cases h a = Ensures-ok h

-- The postcondition of a first call is what the second may rely on.
module _ {ℓ κ ℓ' κ'} {A : Type ℓ} {B : Type ℓ'} {P : A → Type κ} {Q : B → Type κ'} where
  pub Ensures-bind :
      {k : A → Result B} {m : Result A}
      → Ensures P m
      → ((x : A) → P x → Ensures Q (k x))
      → Ensures Q (m >>= k)
  Ensures-bind (returns {a} h) next = next a h
  Ensures-bind throws next = throws

-- Where a chain of calls returns, each of them does.
pub >>=-eq-ok {ℓ κ} :
    {A : Type ℓ} {B : Type κ} (m : Result A) (k : A → Result B) {b : B}
    → (m >>= k) ≡ ok b
    → (a : A) × (m ≡ ok a) × (k a ≡ ok b)
>>=-eq-ok (ok a) k h = (a, refl, h)
>>=-eq-ok (throw e) k h = cc
>>=-eq-ok undefined k h = cc
>>=-eq-ok negative_char k h = cc
>>=-eq-ok out_of_fuel k h = cc

-- The same, or std::isdigit was called on a negative char.
pub data Meets {ℓ κ} {A : Type ℓ} (P : A → Type κ) : Result A → Type (ℓ ⊔ κ) where
  meets : {m : Result A} → Ensures P m → Meets P m
  negative : Meets P negative_char

module _ {ℓ κ} {A : Type ℓ} {P : A → Type κ} where
  pub Meets-weaken {κ'} :
      {Q : A → Type κ'} {m : Result A} → Meets P m → ((a : A) → P a → Q a) → Meets Q m
  Meets-weaken (meets h) weaken = meets (Ensures-weaken h weaken)
  Meets-weaken negative weaken = negative

  pub Meets-if :
      (test : Bool) {m k : Result A}
      → (test ≡ true → Meets P m)
      → (test ≡ false → Meets P k)
      → Meets P (if test then m else k)
  Meets-if true hm hk = hm refl
  Meets-if false hm hk = hk refl

module _ {ℓ κ ℓ' κ'} {A : Type ℓ} {B : Type ℓ'} {P : A → Type κ} {Q : B → Type κ'} where
  pub Meets-bind :
      {k : A → Result B} {m : Result A}
      → Meets P m
      → ((x : A) → P x → Meets Q (k x))
      → Meets Q (m >>= k)
  Meets-bind (meets (returns {a} h)) next = next a h
  Meets-bind (meets throws) next = meets throws
  Meets-bind negative next = negative
