-- ===== src/Base/Result.antt =====
-- Go's `(value, error)`: a value, or an error of the type `E`.
use dockyards_talos.Base.{
  ◌≡◌, refl, ap, ◌⊎◌, inl, inr, Bool, true, false, Option, none, some, if◌then◌else◌,
}

pub data Result {ℓ} (E : Type 0) (A : Type ℓ) : Type ℓ where
  ok : A → Result E A
  err : E → Result E A

-- `v, err := …; if err != nil { return …, e }`
abbrev pub or_fail {ℓ} : {E : Type 0} {A : Type ℓ} → Option A → E → Result E A
or_fail none e = err e
or_fail (some a) e = ok a

-- `if !test { return …, e }`
abbrev pub guard : {E : Type 0} → Bool → E → Result E (Unit {0})
guard false problem = err problem
guard true problem = ok tt

-- The rest of a function, after a call that may fail.
infixl 5 ◌>>=◌ ◌>>◌
abbrev pub ◌>>=◌ {ℓ κ} :
    {E : Type 0} {A : Type ℓ} {B : Type κ} → Result E A → (A → Result E B) → Result E B
err problem >>= next = err problem
ok value >>= next = next value

abbrev pub ◌>>◌ {ℓ} : {E : Type 0} {B : Type ℓ} → Result E (Unit {0}) → Result E B → Result E B
first >> next = first >>= λ done. next

pub Result-cases {ℓ} :
    {E : Type 0} {A : Type ℓ} (r : Result E A) → ((a : A) × (r ≡ ok a)) ⊎ ((e : E) × (r ≡ err e))
Result-cases (ok a) = inl (a, refl)
Result-cases (err e) = inr (e, refl)

-- The first call of a chain that succeeded has a value, with which the rest succeeded.
pub >>=-eq-ok {ℓ κ} :
    {E : Type 0} {A : Type ℓ} {B : Type κ} {out : B} (first : Result E A) (next : A → Result E B)
    → (first >>= next) ≡ ok out
    → (value : A) × (first ≡ ok value) × (next value ≡ ok out)
>>=-eq-ok (err problem) next failure = cc
>>=-eq-ok (ok value) next success = (value, refl, success)

-- The same for `if test { return …, e }`.
pub if-err-eq-ok {ℓ} :
    {E : Type 0} {A : Type ℓ} (test : Bool) (e : E) (m : Result E A) {a : A}
    → (if test then err e else m) ≡ ok a
    → (test ≡ false) × (m ≡ ok a)
if-err-eq-ok true e m h = cc
if-err-eq-ok false e m h = (refl, h)

-- Inversion of a guard that was passed, and the chain behind it.
pub guard-eq-ok {ℓ} :
    {E : Type 0} {B : Type ℓ} {out : B} (test : Bool) (e : E) (rest : Result E B)
    → (guard test e >> rest) ≡ ok out
    → (test ≡ true) × (rest ≡ ok out)
guard-eq-ok true e rest h = (refl, h)
guard-eq-ok false e rest h = cc

pub guard-then {ℓ} :
    {E : Type 0} {B : Type ℓ} (test : Bool) (e : E) (rest : Result E B)
    → test ≡ true
    → (guard test e >> rest) ≡ rest
guard-then test e rest h = ap (λ b. guard b e >> rest) h

pub ok->>= {ℓ κ} :
    {E : Type 0} {A : Type ℓ} {B : Type κ} (first : Result E A) (next : A → Result E B) (a : A)
    → first ≡ ok a
    → (first >>= next) ≡ next a
ok->>= first next a h = ap (λ r. r >>= next) h

-- The same for `or_fail`.
pub or_fail-eq-ok {ℓ} :
    {E : Type 0} {A : Type ℓ} {a : A} (o : Option A) (e : E) → or_fail o e ≡ ok a → o ≡ some a
or_fail-eq-ok none e h = cc
or_fail-eq-ok (some a) e h = cc

-- Two continuations that agree.
pub >>=-congr {ℓ κ} :
    {E : Type 0} {A : Type ℓ} {B : Type κ} (m : Result E A) (f g : A → Result E B)
    → ((a : A) → f a ≡ g a)
    → (m >>= f) ≡ (m >>= g)
>>=-congr (ok a) f g h = h a
>>=-congr (err e) f g h = refl
