-- ===== src/Outcome.antt =====
-- What a fallible call does: it returns a value, returns an error, or panics. A panic (`unwrap` on
-- `None`, an arithmetic overflow, `unreachable!`) and an error both abort the transaction.
use raydium_amm_fair.Common.{
  ℕ, ◌≡◌, refl, Bool, true, false, Option, none, some, List, ltb, ◌==◌, length, get_elem?, set,
  if◌then◌else◌,
}
use raydium_amm_fair.Error.{AmmError, ProgramError}

pub data Outcome {ℓ} (A : Type ℓ) : Type ℓ where
  ok : A → Outcome A
  err : ProgramError → Outcome A
  panic : Outcome A

-- A call followed by what uses its value.
abbrev pub ◌>>=◌ {ℓ κ} :
    {Value : Type ℓ} {Next : Type κ} → Outcome Value → (Value → Outcome Next) → Outcome Next
panic >>= next = panic
err failure >>= next = err failure
ok value >>= next = next value

-- A check followed by the rest.
abbrev pub ◌>>◌ {κ} : {Next : Type κ} → Outcome (Unit {0}) → Outcome Next → Outcome Next
check >> rest = check >>= λ _. rest

infixl 5 ◌>>=◌ ◌>>◌
-- `o.unwrap()`
abbrev pub unwrap {ℓ} : {A : Type ℓ} → Option A → Outcome A
unwrap none = panic
unwrap (some a) = ok a

-- `o.ok_or(e)?`
abbrev pub ok_or {ℓ} : {A : Type ℓ} → Option A → AmmError → Outcome A
ok_or none e = err (ProgramError.amm e)
ok_or (some a) e = ok a

-- `if c { return Err(e.into()); }`
abbrev pub fail_if : Bool → AmmError → Outcome (Unit {0})
fail_if true e = err (ProgramError.amm e)
fail_if false e = ok tt

-- `array[i]`, read and written; an index out of bounds panics.
abbrev pub read_at {ℓ} : {A : Type ℓ} → List A → ℕ → Outcome A
read_at array i = unwrap (get_elem? array i)

abbrev pub write_at {ℓ} : {A : Type ℓ} → List A → ℕ → A → Outcome (List A)
write_at array i value = if ltb i (length array) then ok (set array i value) else panic

-- `NonZeroU64::new(n).unwrap()`
abbrev pub non_zero : ℕ → Outcome ℕ
non_zero n = if n == 0 then panic else ok n

-- A passed check.
pub fail_if-eq-ok {ℓ} :
    {B : Type ℓ} (c : Bool) (e : AmmError) (k : Outcome B) {b : B}
    → (fail_if c e >> k) ≡ ok b
    → (c ≡ false) × (k ≡ ok b)
fail_if-eq-ok true e k h = cc
fail_if-eq-ok false e k h = (refl, h)

pub fail_if-ok : (c : Bool) (e : AmmError) {u : Unit {0}} → fail_if c e ≡ ok u → c ≡ false
fail_if-ok true e h = cc
fail_if-ok false e h = refl

-- A bind that succeeds hands its value, and how it came about, to a continuation.
pub after_bind {ℓ κ ι} :
    {Value : Type ℓ} {Next : Type κ} {Goal : Type ι} (call : Outcome Value)
    {next : Value → Outcome Next} {result : Next}
    → (call >>= next) ≡ ok result
    → ((value : Value) → call ≡ ok value → next value ≡ ok result → Goal)
    → Goal
after_bind panic h k = absurd (cc h)
after_bind (err failure) h k = absurd (cc h)
after_bind (ok value) h k = k value refl h

pub ok-inj {ℓ} : {A : Type ℓ} {a b : A} → ok a ≡ ok b → a ≡ b
ok-inj h = cc

pub unwrap-eq-ok {ℓ} : {A : Type ℓ} (o : Option A) {a : A} → unwrap o ≡ ok a → o ≡ some a
unwrap-eq-ok none h = cc
unwrap-eq-ok (some a) h = cc
