-- ===== src/Exec/Ensures.antt =====
-- What holds after a call that returned a value: `P` before, `Q` after, of the value and the world.
-- A call that returned an error promises nothing here.
use notebook_operator.Base.{◌≡◌, refl, Bool, true, false, if◌then◌else◌}
use notebook_operator.Exec.{
  Failure, Result, ok, err, Exec, pure, fail, reads, attempt, continue, ◌>>=◌, ◌>>◌,
}
use notebook_operator.Exec.Keeps.{Keeps}

abbrev pub Returned : {W A : Type 0} → (A → W → Type 0) → Result A → W → Type 0
Returned Q (ok a) w = Q a w
Returned Q (err e) w = Unit {0}

pub record Ensures {W A : Type 0} (P : W → Type 0) (m : Exec W A) (Q : A → W → Type 0)
    : Type 0 where
  pub at : (w : W) → P w → Returned Q (m w).0 (m w).1

module _ {W A : Type 0} where
  Returned-always : (Q : A → W → Type 0) (r : Result A) (w : W) → ((a : A) → Q a w) → Returned Q r w
  Returned-always Q (ok a) w h = h a
  Returned-always Q (err e) w h = tt

module _ {W A B : Type 0} where
  Ensures-continue :
      (R : A → W → Type 0) (Q : B → W → Type 0) (r : Result A) (f : A → Exec W B) (w : W)
      → Returned R r w
      → ((a : A) → Ensures (R a) (f a) Q)
      → Returned Q (continue r f w).0 (continue r f w).1
  Ensures-continue R Q (ok a) f w h k = (k a).at w h
  Ensures-continue R Q (err e) f w h k = tt

module _ {W A : Type 0} {P : W → Type 0} {Q : A → W → Type 0} where
  pub Ensures-pure : (a : A) → ((w : W) → P w → Q a w) → Ensures P (pure a) Q
  unfolding pure
  Ensures-pure a h = record { at = h }

  pub Ensures-fail : (e : Failure) → Ensures P (fail e) Q
  unfolding fail
  Ensures-fail e = record { at = λ w h. tt }

  pub Ensures-if :
      (b : Bool) (m n : Exec W A) → Ensures P m Q → Ensures P n Q → Ensures P (if b then m else n) Q
  Ensures-if true m n km kn = km
  Ensures-if false m n km kn = kn

  -- What is kept whatever happens holds after a value too.
  pub Ensures-of-Keeps :
      (m : Exec W A) → Keeps P m → ((a : A) (w : W) → P w → Q a w) → Ensures P m Q
  Ensures-of-Keeps m k h = record {
    at = λ w p. Returned-always Q (m w).0 (m w).1 (λ a. h a (m w).1 (k.at w p));
  }

module _ {W A B : Type 0} {P : W → Type 0} {R : A → W → Type 0} {Q : B → W → Type 0} where
  pub Ensures-bind :
      (m : Exec W A) (f : A → Exec W B)
      → Ensures P m R
      → ((a : A) → Ensures (R a) (f a) Q)
      → Ensures P (m >>= f) Q
  unfolding ◌>>=◌
  Ensures-bind m f em ef = record {
    at = λ w h. Ensures-continue R Q (m w).0 f (m w).1 (em.at w h) ef;
  }

-- No condition.
abbrev pub Any : {W : Type 0} → W → Type 0
Any w = Unit {0}

module _ {W A : Type 0} where
  pub Returned-if :
      (Q : A → W → Type 0) (r : Result A) (w : W) → ((a : A) → r ≡ ok a → Q a w) → Returned Q r w
  Returned-if Q (ok a) w h = h a refl
  Returned-if Q (err e) w h = tt

  pub Ensures-of :
      (P : W → Type 0) (m : Exec W A) (Q : A → W → Type 0)
      → ((w : W) (a : A) → P w → (m w).0 ≡ ok a → Q a (m w).1)
      → Ensures P m Q
  Ensures-of P m Q h = record { at = λ w p. Returned-if Q (m w).0 (m w).1 (λ a. h w a p) }

  pub Ensures-reads :
      (P : W → Type 0) (f : W → Result A) → Ensures P (reads f) (λ a w. P w × (f w ≡ ok a))
  unfolding reads
  Ensures-reads P f = Ensures-of P (reads f) _ (λ w a p h. (p, h))

  pub Ensures-attempt-reads :
      (P : W → Type 0) (f : W → Result A) → Ensures P (attempt (reads f)) (λ r w. P w × (f w ≡ r))
  unfolding reads attempt
  Ensures-attempt-reads P f = record { at = λ w p. (p, refl) }

  pub Ensures-attempt :
      (P : W → Type 0) (m : Exec W A) (Q : A → W → Type 0)
      → Ensures P m Q
      → Ensures P (attempt m) (Returned Q)
  unfolding attempt
  Ensures-attempt P m Q e = record { at = e.at }

  pub Ensures-any : (P : W → Type 0) (m : Exec W A) → Ensures P m (λ a w. Unit {0})
  Ensures-any P m = Ensures-of P m _ (λ w a p h. tt)

  pub Ensures-weaken :
      (P P' : W → Type 0) (m : Exec W A) (Q : A → W → Type 0)
      → ((w : W) → P' w → P w)
      → Ensures P m Q
      → Ensures P' m Q
  Ensures-weaken P P' m Q h e = record { at = λ w p. e.at w (h w p) }

module _ {W A B : Type 0} (Q : W → Type 0) (m : Exec W A) (n : Exec W B) where
  -- Of two calls in a row, the second keeps what the first ensures.
  pub Ensures-first : Ensures Any m (λ a. Q) → Keeps Q n → Ensures Any (m >> n) (λ b. Q)
  Ensures-first em kn = Ensures-bind m _ em (λ a. Ensures-of-Keeps n kn (λ b w h. h))

  -- Or the second ensures it whatever the first did.
  pub Ensures-second : Ensures Any n (λ b. Q) → Ensures Any (m >> n) (λ b. Q)
  Ensures-second en = Ensures-bind m _ (Ensures-any Any m) (λ a. en)
