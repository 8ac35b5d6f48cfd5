-- ===== src/Base/Outcome.antt =====
-- How a call ends that sends on channels: it returns, it waits for ever, or it panics.
use dockyards_talos.Base.{◌≡◌, refl, ◌⊎◌, inl, inr}

pub data Outcome {ℓ} (A : Type ℓ) : Type ℓ where
  done : A → Outcome A
  blocks panics : Outcome A

infixl 5 ◌>>=◌
abbrev pub ◌>>=◌ {ℓ κ} : {A : Type ℓ} {B : Type κ} → Outcome A → (A → Outcome B) → Outcome B
done a >>= f = f a
blocks >>= f = blocks
panics >>= f = panics

-- Inversion of a chain that returned.
pub >>=-eq-done {ℓ κ} :
    {A : Type ℓ} {B : Type κ} (m : Outcome A) (f : A → Outcome B) {b : B}
    → (m >>= f) ≡ done b
    → (a : A) × (m ≡ done a) × (f a ≡ done b)
>>=-eq-done (done a) f h = (a, refl, h)
>>=-eq-done blocks f h = cc
>>=-eq-done panics f h = cc

pub Outcome-cases {ℓ} :
    {A : Type ℓ} (m : Outcome A) → ((a : A) × (m ≡ done a)) ⊎ (m ≡ blocks) ⊎ (m ≡ panics)
Outcome-cases (done a) = inl (a, refl)
Outcome-cases blocks = inr (inl refl)
Outcome-cases panics = inr (inr refl)

-- Two continuations that agree.
pub >>=-congr {ℓ κ} :
    {A : Type ℓ} {B : Type κ} (m : Outcome A) (f g : A → Outcome B)
    → ((a : A) → f a ≡ g a)
    → (m >>= f) ≡ (m >>= g)
>>=-congr (done a) f g h = h a
>>=-congr blocks f g h = refl
>>=-congr panics f g h = refl
