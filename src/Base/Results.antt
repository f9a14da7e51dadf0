-- ===== src/Base/Results.antt =====
-- `std::expected<A, std::string>`, with the two things that are no C++ value told apart: `fault` is
-- a read or write outside the buffer, or a loop that does not end within its fuel.
use Prim.Native.String.{String, ◌++◌}
use mathlib.Core.Path.{◌≡◌, refl, subst}
use mathlib.Core.Bool.{Bool, true, false}
use simple_webrtc.Base.Tests.{if◌then◌else◌}

pub data Result {ℓ} (A : Type ℓ) : Type ℓ where
  ok : A → Result A
  err : String → Result A
  fault : Result A

infixl 5 ◌>>=◌ ◌>>◌
abbrev pub ◌>>=◌ {ℓ κ} : {A : Type ℓ} {B : Type κ} → Result A → (A → Result B) → Result B
ok a >>= f = f a
err e >>= f = err e
fault >>= f = fault

abbrev pub ◌>>◌ {ℓ} : {B : Type ℓ} → Result (Unit {0}) → Result B → Result B
m >> k = m >>= λ _. k

-- `if (bad) return make_error(message);`
abbrev pub reject : Bool → String → Result (Unit {0})
reject true message = err message
reject false message = ok tt

-- `std::string message = prefix; message.append(result.error());`
abbrev pub with_prefix {ℓ} : {A : Type ℓ} → String → Result A → Result A
with_prefix prefix (ok a) = ok a
with_prefix prefix (err message) = err (prefix ++ message)
with_prefix prefix fault = fault

-- No fault, and a result with the property where there is one.
abbrev pub Ensures {ℓ} : {A : Type ℓ} → (A → Type 0) → Result A → Type 0
Ensures P (ok a) = P a
Ensures P (err message) = Unit {0}
Ensures P fault = ⊥

-- A run that ends, and reads and writes only inside its buffers.
abbrev pub IsSafe {ℓ} : {A : Type ℓ} → Result A → Type 0
IsSafe = Ensures (λ _. Unit {0})

module _ {ℓ κ} {A : Type ℓ} {B : Type κ} (P : A → Type 0) (Q : B → Type 0) where
  pub Ensures->>= :
      (m : Result A) (f : A → Result B)
      → Ensures P m
      → ((a : A) → P a → Ensures Q (f a))
      → Ensures Q (m >>= f)
  Ensures->>= (ok a) f h k = k a h
  Ensures->>= (err message) f h k = tt
  Ensures->>= fault f h k = h

module _ {ℓ} {A : Type ℓ} where
  pub Ensures-mono :
      (P Q : A → Type 0) (m : Result A) → Ensures P m → ((a : A) → P a → Q a) → Ensures Q m
  Ensures-mono P Q (ok a) h k = k a h
  Ensures-mono P Q (err message) h k = tt
  Ensures-mono P Q fault h k = h

  pub Ensures-eq_ok : (P : A → Type 0) (m : Result A) {a : A} → Ensures P m → m ≡ ok a → P a
  Ensures-eq_ok P (ok b) h e = subst P (ok-injective e) h
    where
      ok-injective : {a b : A} → ok a ≡ ok b → a ≡ b
      ok-injective e = cc
  Ensures-eq_ok P (err message) h e = absurd (cc)
  Ensures-eq_ok P fault h e = absurd h

-- A check that passes lets the rest use what it tested.
pub Ensures-reject {κ} :
    {B : Type κ} (Q : B → Type 0) (bad : Bool) (message : String) (rest : Result B)
    → (bad ≡ false → Ensures Q rest)
    → Ensures Q (reject bad message >> rest)
Ensures-reject Q true message rest k = tt
Ensures-reject Q false message rest k = k refl

pub Ensures-with_prefix {ℓ κ} :
    {A : Type ℓ} {B : Type κ} (P : A → Type 0) (Q : B → Type 0) (prefix : String) (m : Result A)
    (f : A → Result B)
    → Ensures P m
    → ((a : A) → P a → Ensures Q (f a))
    → Ensures Q (with_prefix prefix m >>= f)
Ensures-with_prefix P Q prefix (ok a) f h k = k a h
Ensures-with_prefix P Q prefix (err message) f h k = tt
Ensures-with_prefix P Q prefix fault f h k = h

-- A branch may use the test.
pub Ensures-if {ℓ} :
    {A : Type ℓ} (P : A → Type 0) (test : Bool) (x y : Result A)
    → (test ≡ true → Ensures P x)
    → (test ≡ false → Ensures P y)
    → Ensures P (if test then x else y)
Ensures-if P true x y h k = h refl
Ensures-if P false x y h k = k refl
