-- ===== src/Exec.antt =====
-- Go functions that call the API server: they return a value or an error, and what they have
-- written before an error stays written.
pub mod Keeps
pub mod Ensures
pub mod Sound
pub mod Agrees
use notebook_operator.Base.{[], Bool, false, ◌≡◌, ◌⊎◌, inl, inr, refl}
use notebook_operator.Base.Text.{Text, codes}

-- An `error`, as far as the program looks at it: whether `apierrors.IsNotFound` holds, and its
-- text. The second form is the error that `reconcileTTL` makes, with the TTL and its cause. The third
-- is no error but the panic of a nil pointer that is followed, which ends a run too.
pub data Failure : Type 0 where
  api : Bool → Text → Failure
  invalid_ttl : Text → Failure
  nil_dereference : Failure

-- `apierrors.IsNotFound(err)`
abbrev pub is_not_found : Failure → Bool
is_not_found (api missing message) = missing
is_not_found (invalid_ttl ttl) = false
is_not_found nil_dereference = false

-- `err.Error()`, which the program asks of the first form only.
unfoldable pub error_text : Failure → Text
error_text (api missing message) = message
error_text (invalid_ttl ttl) = codes "invalid TTL string format"
error_text nil_dereference = []

pub data Result {ℓ} (A : Type ℓ) : Type ℓ where
  ok : A → Result A
  err : Failure → Result A

abbrev pub Exec : Type 0 → Type 0 → Type 0
Exec W A = W → Result A × W

module _ {W : Type 0} where
  pub pure : {A : Type 0} → A → Exec W A
  pure a w = (ok a, w)

  pub fail : {A : Type 0} → Failure → Exec W A
  fail e w = (err e, w)

  -- A call that reads and does not write.
  pub reads : {A : Type 0} → (W → Result A) → Exec W A
  reads f w = (f w, w)

  -- The call with its error as a value, for `err` that the caller inspects.
  pub attempt : {A : Type 0} → Exec W A → Exec W (Result A)
  attempt m w = (ok (m w).0, (m w).1)

  abbrev pub continue : {A B : Type 0} → Result A → (A → Exec W B) → Exec W B
  continue (ok a) f w = f a w
  continue (err e) f w = (err e, w)

  infixl 10 ◌>>=◌ ◌>>◌
  unfoldable pub ◌>>=◌ : {A B : Type 0} → Exec W A → (A → Exec W B) → Exec W B
  unfolding pure fail reads attempt
  ◌>>=◌ m f w = continue (m w).0 f (m w).1

  abbrev pub ◌>>◌ : {A B : Type 0} → Exec W A → Exec W B → Exec W B
  m >> n = m >>= λ _. n

Result-cases : {A : Type 0} (r : Result A) → ((e : Failure) × (r ≡ err e)) ⊎ ((a : A) × (r ≡ ok a))
Result-cases (ok a) = inr (a, refl)
Result-cases (err e) = inl (e, refl)

module _ {W A B : Type 0} where
  continue-eq-ok :
      (r : Result A) (f : A → Exec W B) (w : W) (b : B)
      → (continue r f w).0 ≡ ok b
      → (a : A) × (r ≡ ok a) × (continue r f w ≡ f a w)
  continue-eq-ok (ok a) f w b h = (a, refl, refl)
  continue-eq-ok (err e) f w b h = cc

  -- The run of a chain that returned a value.
  pub >>=-eq-ok :
      (m : Exec W A) (f : A → Exec W B) (w : W) (b : B)
      → ((m >>= f) w).0 ≡ ok b
      → (a : A) × ((m w).0 ≡ ok a) × ((m >>= f) w ≡ f a (m w).1)
  unfolding ◌>>=◌
  >>=-eq-ok m f w b h = continue-eq-ok (m w).0 f (m w).1 b h

  -- The run of a chain, whose first call returned a value or an error.
  abbrev pub Stopped : Exec W A → (A → Exec W B) → W → Type 0
  Stopped m f w = (e : Failure) × ((m w).0 ≡ err e) × ((m >>= f) w ≡ (err e, (m w).1))

  abbrev pub Continued : Exec W A → (A → Exec W B) → W → Type 0
  Continued m f w = (a : A) × ((m w).0 ≡ ok a) × ((m >>= f) w ≡ f a (m w).1)

  pub >>=-cases : (m : Exec W A) (f : A → Exec W B) (w : W) → Stopped m f w ⊎ Continued m f w
  unfolding ◌>>=◌
  >>=-cases m f w = elim (Result-cases (m w).0) [
    | inl (e, h) ↦ inl (e, h, rw h)
    | inr (a, h) ↦ inr (a, h, rw h)
  ]

  continue-pure : (r : Result A) (b : B) (w : W) → (continue r (λ _. pure b) w).1 ≡ w
  unfolding pure
  continue-pure (ok a) b w = refl
  continue-pure (err e) b w = refl

  -- Returning a value writes nothing.
  pub >>=-pure : (m : Exec W A) (b : B) (w : W) → ((m >> pure b) w).1 ≡ (m w).1
  unfolding ◌>>=◌
  >>=-pure m b w = continue-pure (m w).0 b (m w).1
