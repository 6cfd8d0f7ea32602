-- ===== src/Manifest/Passes.antt =====
-- Runs of tests: a run that passes is `ok`, and a failed assertion ends the run.
use bind.Common.{
  ℕ, arith, ◌==◌, ◌≡◌, refl, Bool, true, false, List, [], ◌∷◌, All, Result, ok, err, panic, ◌>>=◌,
  ◌>>◌, assert, or_panic, Option, none, some,
}

-- The result of a test.
abbrev pub Run {ℓ} : Type ℓ → Type ℓ
Run A = Result (Unit {0}) A

-- A loop over the items, whose body is a sequence of assertions.
abbrev pub each {ℓ} : {A : Type ℓ} → (A → Run (Unit {0})) → List A → Run (Unit {0})
each f [] = ok tt
each f (x ∷ xs) = f x >> each f xs

pub assert_passes :
    (b : Bool) (k : Run (Unit {0})) → (assert b >> k) ≡ ok tt → (b ≡ true) × (k ≡ ok tt)
assert_passes true k h = (refl, h)
assert_passes false k h = cc

pub assert_last : (b : Bool) → ◌≡◌ {A = Run (Unit {0})} (assert b) (ok tt) → b ≡ true
assert_last true h = refl
assert_last false h = cc

-- A run that passes has passed its first step.
pub bind_passes {ℓ κ} :
    {A : Type ℓ} {B : Type κ} (m : Run A) (f : A → Run B) (b : B)
    → (m >>= f) ≡ ok b
    → (a : A) × (m ≡ ok a) × (f a ≡ ok b)
bind_passes (ok a) f b h = (a, refl, h)
bind_passes (err e) f b h = cc
bind_passes panic f b h = cc

-- A loop passes if its body passes for every item, and only then.
pub each_passes {ℓ} :
    {A : Type ℓ} (f : A → Run (Unit {0})) (xs : List A)
    → each f xs ≡ ok tt
    → All (λ x. f x ≡ ok tt) xs
each_passes f [] h = tt
each_passes f (x ∷ xs) h =
    let (u, first, rest) = bind_passes (f x) (λ _. each f xs) tt h in (first, each_passes f xs rest)

pub passes_each {ℓ} :
    {A : Type ℓ} (f : A → Run (Unit {0})) (xs : List A)
    → All (λ x. f x ≡ ok tt) xs
    → each f xs ≡ ok tt
passes_each f [] h = refl
passes_each f (x ∷ xs) (first, h) = rw (first, passes_each f xs h) refl

pub ok_injective {ℓ} : {A : Type ℓ} (a b : A) → ◌≡◌ {A = Run A} (ok a) (ok b) → a ≡ b
ok_injective a b h = cc

pub or_panic_passes {ℓ} :
    {A : Type ℓ} (o : Option A) (a : A) → ◌≡◌ {A = Run A} (or_panic o) (ok a) → o ≡ some a
or_panic_passes none a h = cc
or_panic_passes (some b) a h = cc

pub same : (n : ℕ) → (n == n) ≡ true
same n = ground arith
