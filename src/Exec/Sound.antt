-- ===== src/Exec/Sound.antt =====
-- Calls that follow no nil pointer: a call that returns a value returns one of which `Q` holds, and a
-- call that fails fails with an error.
use notebook_operator.Base.{Bool, true, false, ◌≢◌, if◌then◌else◌}
use notebook_operator.Exec.{
  Failure, nil_dereference, Result, ok, err, Exec, pure, fail, reads, attempt, continue, ◌>>=◌,
}

abbrev pub Outcome : {A : Type 0} → (A → Type 0) → Result A → Type 0
Outcome Q (ok a) = Q a
Outcome Q (err e) = e ≢ nil_dereference

pub record Sound {W A : Type 0} (m : Exec W A) (Q : A → Type 0) : Type 0 where
  pub at : (w : W) → Outcome Q (m w).0

-- No condition on the value.
abbrev pub Fine : {W A : Type 0} → Exec W A → Type 0
Fine {A = A} m = Sound m (λ a. Unit {0})

Outcome-any : {A : Type 0} (r : Result A) → r ≢ err nil_dereference → Outcome (λ a. Unit {0}) r
Outcome-any (ok a) h = tt
Outcome-any (err e) h = λ x. h (cc)

module _ {W A : Type 0} where
  pub Sound-pure : (Q : A → Type 0) (a : A) → Q a → Sound (pure {W = W} a) Q
  unfolding pure
  Sound-pure Q a h = record { at = λ w. h }

  pub Fine-pure : (a : A) → Fine (pure {W = W} a)
  Fine-pure a = Sound-pure _ a tt

  pub Sound-fail :
      (Q : A → Type 0) (e : Failure) → e ≢ nil_dereference → Sound (fail {W = W} {A = A} e) Q
  unfolding fail
  Sound-fail Q e h = record { at = λ w. h }

  -- A read whose errors are values.
  pub Sound-attempt : (m : Exec W A) (Q : A → Type 0) → Sound m Q → Sound (attempt m) (Outcome Q)
  unfolding attempt
  Sound-attempt m Q s = record { at = s.at }

  pub Sound-if :
      (b : Bool) (m n : Exec W A) (Q : A → Type 0)
      → Sound m Q
      → Sound n Q
      → Sound (if b then m else n) Q
  Sound-if true m n Q sm sn = sm
  Sound-if false m n Q sm sn = sn

  -- What an attempt of a call returns is a value.
  pub Fine-attempt : (m : Exec W A) → Fine (attempt m)
  unfolding attempt
  Fine-attempt m = record { at = λ w. tt }

  pub Fine-of : (m : Exec W A) → ((w : W) → (m w).0 ≢ err nil_dereference) → Fine m
  Fine-of m h = record { at = λ w. Outcome-any (m w).0 (h w) }

  pub Fine-reads : (f : W → Result A) → ((w : W) → f w ≢ err nil_dereference) → Fine (reads f)
  unfolding reads
  Fine-reads f h = record { at = λ w. Outcome-any (f w) (h w) }

module _ {W A B : Type 0} where
  Outcome-continue :
      (Q : A → Type 0) (R : B → Type 0) (r : Result A) (f : A → Exec W B) (w : W)
      → Outcome Q r
      → ((a : A) → Q a → Sound (f a) R)
      → Outcome R (continue r f w).0
  Outcome-continue Q R (ok a) f w h k = (k a h).at w
  Outcome-continue Q R (err e) f w h k = h

  pub Sound-bind :
      (m : Exec W A) (f : A → Exec W B) (Q : A → Type 0) (R : B → Type 0)
      → Sound m Q
      → ((a : A) → Q a → Sound (f a) R)
      → Sound (m >>= f) R
  unfolding ◌>>=◌
  Sound-bind m f Q R s k = record { at = λ w. Outcome-continue Q R (m w).0 f (m w).1 (s.at w) k }

  -- Where the value of the first call does not matter.
  pub Fine-bind :
      (m : Exec W A) (f : A → Exec W B) (R : B → Type 0)
      → Fine m
      → ((a : A) → Sound (f a) R)
      → Sound (m >>= f) R
  Fine-bind m f R s k = Sound-bind m f (λ a. Unit {0}) R s (λ a h. k a)
