-- ===== src/Base/Ensured.antt =====
-- Rules for what a chain of steps that can fail ensures of its value.
use mathlib.Core.Path.{◌≡◌, refl}
use mathlib.Core.Bool.{Bool, true, false}
use cppup.Base.Tests.{if◌then◌else◌}
use cppup.Base.Expected.{Outcome, ok, err, ◌>>=◌}

-- What holds of the value, if a computation returns one.
pub data Ensured {E A : Type 0} (P : A → Type 0) : Outcome E A → Type 0 where
  value : {a : A} → P a → Ensured P (ok a)
  error : {e : E} → Ensured P (err e)

module _ {E A : Type 0} {P : A → Type 0} where
  pub ensured : (a : A) → Ensured {E = E} P (ok a) → P a
  ensured a (value h) = h

  pub Ensured-of_ok : {m : Outcome E A} {a : A} → Ensured P m → m ≡ ok a → P a
  Ensured-of_ok {m} {a} h e = ensured a (rw e at h)

  pub if_Ensured :
      (test : Bool) {x y : Outcome E A}
      → (test ≡ true → Ensured P x)
      → (test ≡ false → Ensured P y)
      → Ensured P (if test then x else y)
  if_Ensured true h k = h refl
  if_Ensured false h k = k refl

module _ {E A : Type 0} {P Q : A → Type 0} where
  pub weaken : {m : Outcome E A} → Ensured P m → ((a : A) → P a → Q a) → Ensured Q m
  weaken (value {a} h) k = value (k a h)
  weaken error k = error

module _ {E A B : Type 0} {Q : B → Type 0} {f : A → Outcome E B} where
  -- a step of which nothing has to be known
  pub after : (m : Outcome E A) → ((a : A) → Ensured Q (f a)) → Ensured Q (m >>= f)
  after (ok a) h = h a
  after (err e) h = error

  pub knowing :
      {P : A → Type 0} {m : Outcome E A}
      → Ensured P m
      → ((a : A) → P a → Ensured Q (f a))
      → Ensured Q (m >>= f)
  knowing (value {a} h) k = k a h
  knowing error k = error

module _ {E B : Type 0} {Q : B → Type 0} where
  -- a test that an early return guards
  pub checked :
      (good : Bool) (e : E) (f : Unit {0} → Outcome E B)
      → (good ≡ true → Ensured Q (f tt))
      → Ensured Q ((if good then ok tt else err e) >>= f)
  checked true e f h = h refl
  checked false e f h = error

  -- a step whose own equation is known
  pub taking :
      {A : Type 0} (m : Outcome E A) {f : A → Outcome E B}
      → ((a : A) → m ≡ ok a → Ensured Q (f a))
      → Ensured Q (m >>= f)
  taking (ok a) h = h a refl
  taking (err e) h = error
