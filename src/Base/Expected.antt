-- ===== src/Base/Expected.antt =====
-- `std::expected<A, E>`: a value, or an error that ends the computation.
use mathlib.Core.Path.{◌≡◌, refl}
use mathlib.Core.Logic.{◌≢◌}

pub data Outcome {ℓ} (E A : Type ℓ) : Type ℓ where
  ok : A → Outcome E A
  err : E → Outcome E A

-- the early return of an error, or the rest of the function
infixl 5 ◌>>=◌
abbrev pub ◌>>=◌ {ℓ} : {E A B : Type ℓ} (first : Outcome E A) (rest : A → Outcome E B) → Outcome E B
first >>= rest = elim first [ err problem ↦ err problem | ok value ↦ rest value ]

-- What holds of the value, if there is one.
module _ {ℓ κ} {E A : Type ℓ} where
  abbrev pub Ensures : (A → Type κ) → Outcome E A → Type κ
  Ensures P (ok a) = P a
  Ensures P (err e) = Unit

  pub ensured : (P : A → Type κ) (m : Outcome E A) {a : A} → Ensures P m → m ≡ ok a → P a
  ensured P m h e = rw e at h

module _ {ℓ κ} {E A B : Type ℓ} where
  pub Ensures-bind :
      (P : A → Type κ) (Q : B → Type κ) (m : Outcome E A) (f : A → Outcome E B)
      → Ensures P m
      → ((a : A) → P a → Ensures Q (f a))
      → Ensures Q (m >>= f)
  Ensures-bind P Q (ok a) f h k = k a h
  Ensures-bind P Q (err e) f h k = tt

-- A chain ends with an error only where a step does.
pub bind-ne-err {ℓ} :
    {E A B : Type ℓ} {x : E} (m : Outcome E A) (f : A → Outcome E B)
    → m ≢ err x
    → ((a : A) → f a ≢ err x)
    → (m >>= f) ≢ err x
bind-ne-err (ok a) f hm hf = hf a
bind-ne-err (err e) f hm hf = λ p. hm (cc)

module _ {ℓ κ μ} {E A : Type ℓ} where
  pub Ensures-map :
      (P : A → Type κ) (Q : A → Type μ) (m : Outcome E A)
      → ((a : A) → P a → Q a)
      → Ensures P m
      → Ensures Q m
  Ensures-map P Q (ok a) f h = f a h
  Ensures-map P Q (err e) f h = tt

pub bind_assoc {ℓ} :
    {E A B C : Type ℓ} (m : Outcome E A) (f : A → Outcome E B) (g : B → Outcome E C)
    → (m >>= f >>= g) ≡ (m >>= λ a. f a >>= g)
bind_assoc (ok a) f g = refl
bind_assoc (err e) f g = refl
