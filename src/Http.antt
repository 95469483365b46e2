-- ===== src/Http.antt =====
-- Errors of the service layer: `fastapi.HTTPException` with its status code and detail, and the
-- result of a function that may raise one.
use fast_page.Prelude.{ℕ, String, Bool, true, false, ◌≡◌, refl, arith}

pub record HttpException : Type 0 where
  pub status_code : ℕ
  pub detail : String

pub data Result {ℓ} (A : Type ℓ) : Type ℓ where
  ok : A → Result A
  err : HttpException → Result A

module _ {ℓ} {A : Type ℓ} where
  abbrev pub raise : ℕ → String → Result A
  raise code text = err (record { status_code = code; detail = text })

-- `if test: raise HTTPException(code, text)`
abbrev pub raise_if : Bool → ℕ → String → Result (Unit {0})
raise_if true code text = raise code text
raise_if false code text = ok tt

module _ {ℓ κ} {A : Type ℓ} {B : Type κ} where
  infixl 5 ◌>>=◌
  -- What comes after a call is run only where it has not raised.
  abbrev pub ◌>>=◌ : Result A → (A → Result B) → Result B
  call >>= next = elim call [ err e ↦ err e | ok a ↦ next a ]

  pub >>=-eq-ok :
      (call : Result A) (next : A → Result B) {b : B}
      → (call >>= next) ≡ ok b
      → (a : A) × (call ≡ ok a) × (next a ≡ ok b)
  >>=-eq-ok (err e) next h = cc
  >>=-eq-ok (ok a) next h = (a, refl, h)

infixl 5 ◌>>◌
abbrev pub ◌>>◌ {κ} : {B : Type κ} → Result (Unit {0}) → Result B → Result B
check >> next = check >>= λ _. next

pub raise_if-eq-ok :
    (b : Bool) (code : ℕ) (text : String) {t : Unit {0}} → raise_if b code text ≡ ok t → b ≡ false
raise_if-eq-ok b code text h = ground arith
