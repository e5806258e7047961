-- ===== src/Types/Results.antt =====
-- What is known of a chain of fallible steps that succeeded.
use nexus_fix.Base.{ℕ, ◌≡◌, ◌≢◌, ◌⊎◌, inl, inr, refl, Bool, true, false, if◌then◌else◌}
use nexus_fix.Types.{ParseErrorCode, ParseResult, ok, err, ◌>>=◌}

module _ {ℓ} {A : Type ℓ} where
  pub passes :
      (b : Bool) (code : ParseErrorCode) (tag offset : ℕ) (r : ParseResult A) (a : A)
      → (if b then err code tag offset else r) ≡ ok a
      → (b ≡ false) × (r ≡ ok a)
  passes true code tag offset r a h = cc
  passes false code tag offset r a h = (refl, h)

  pub bind-ok {κ} :
      {B : Type κ} (m : ParseResult A) (f : A → ParseResult B) (b : B)
      → (m >>= f) ≡ ok b
      → (a : A) × (m ≡ ok a) × (f a ≡ ok b)
  bind-ok (ok a) f b h = (a, refl, h)
  bind-ok (err code tag offset) f b h = cc

  pub ok-injective : (a b : A) → ok a ≡ ok b → a ≡ b
  ok-injective a b h = cc

  pub ParseResult-cases :
      (m : ParseResult A)
      → ((a : A) × (m ≡ ok a))
        ⊎ ((code : ParseErrorCode) × (tag : ℕ) × (offset : ℕ) × (m ≡ err code tag offset))
  ParseResult-cases (ok a) = inl (a, refl)
  ParseResult-cases (err code tag offset) = inr (code, tag, offset, refl)

  pub err≢ok : (code : ParseErrorCode) (tag offset : ℕ) (a : A) → err code tag offset ≢ ok a
  err≢ok code tag offset a h = cc
