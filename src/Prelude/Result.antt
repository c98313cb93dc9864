-- ===== src/Prelude/Result.antt =====
-- A value, or the exception that was raised instead.
use xc_ros.Prelude.{◌≡◌, refl, ap}

pub data Result {ℓ κ} (E : Type ℓ) (A : Type κ) : Type (ℓ ⊔ κ) where
  ok : A → Result E A
  err : E → Result E A

module _ {ℓ κ μ} {E : Type ℓ} {A : Type κ} {B : Type μ} where
  -- The first exception ends the chain.
  infixl 5 ◌>>=◌
  abbrev pub ◌>>=◌ : Result E A → (A → Result E B) → Result E B
  err raised >>= next = err raised
  ok value >>= next = next value

  -- The parts of a chain that came to a value.
  pub >>=-eq-ok :
      {next : A → Result E B} {whole : B} (first : Result E A)
      → (first >>= next) ≡ ok whole
      → (value : A) × (first ≡ ok value) × (next value ≡ ok whole)
  >>=-eq-ok (err raised) came = cc
  >>=-eq-ok (ok value) came = (value, refl, came)

pub ok_injective {ℓ κ} :
    {E : Type ℓ} {A : Type κ} (a b : A) → ◌≡◌ {A = Result E A} (ok a) (ok b) → a ≡ b
ok_injective a b e = ap (λ r. elim r [ ok c ↦ c | err x ↦ a ]) e
