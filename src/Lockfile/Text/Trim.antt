-- ===== src/Lockfile/Text/Trim.antt =====
-- What `trim` leaves alone.
use cppup.Base.{false, [], ◌∷◌, ◌++◌, ◌≡◌, refl, arith, Bytes, is_empty, List}
use cppup.Lockfile.Text.{is_blank, trim_front, trim_back}

pub is_empty-append {ℓ} :
    {A : Type ℓ} (s t : List A) → is_empty t ≡ false → is_empty (s ++ t) ≡ false
is_empty-append [] t h = h
is_empty-append (c ∷ s) t h = refl

-- A text that ends in a text with nothing to trim has nothing to trim at its end.
pub trim_back-append :
    (s t : Bytes) → is_empty t ≡ false → trim_back t ≡ t → trim_back (s ++ t) ≡ s ++ t
unfolding trim_back
trim_back-append [] t h e = e
trim_back-append (c ∷ s) t h e = ground (arith, trim_back-append s t h e, is_empty-append s t h)

pub trim_front_solid : (c : _) (s : Bytes) → is_blank c ≡ false → trim_front (c ∷ s) ≡ c ∷ s
unfolding trim_front
trim_front_solid c s h = ground arith

pub is_empty-append_left {ℓ} :
    {A : Type ℓ} (s t : List A) → is_empty s ≡ false → is_empty (s ++ t) ≡ false
is_empty-append_left [] t h = ground arith
is_empty-append_left (c ∷ s) t h = refl
