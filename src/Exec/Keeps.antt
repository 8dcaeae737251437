-- ===== src/Exec/Keeps.antt =====
-- What a call keeps, whether it returns a value or an error: one rule for each way to build one.
use notebook_operator.Base.{Bool, true, false, if◌then◌else◌}
use notebook_operator.Exec.{
  Failure, Result, ok, err, Exec, pure, fail, reads, attempt, continue, ◌>>=◌,
}

pub record Keeps {W A : Type 0} (P : W → Type 0) (m : Exec W A) : Type 0 where
  pub at : (w : W) → P w → P (m w).1

module _ {W A : Type 0} {P : W → Type 0} where
  pub Keeps-pure : (a : A) → Keeps P (pure a)
  unfolding pure
  Keeps-pure a = record { at = λ w h. h }

  pub Keeps-fail : (e : Failure) → Keeps P (fail {A = A} e)
  unfolding fail
  Keeps-fail e = record { at = λ w h. h }

  pub Keeps-reads : (f : W → Result A) → Keeps P (reads f)
  unfolding reads
  Keeps-reads f = record { at = λ w h. h }

  pub Keeps-attempt : (m : Exec W A) → Keeps P m → Keeps P (attempt m)
  unfolding attempt
  Keeps-attempt m k = record { at = k.at }

  pub Keeps-if : (b : Bool) (m n : Exec W A) → Keeps P m → Keeps P n → Keeps P (if b then m else n)
  Keeps-if true m n km kn = km
  Keeps-if false m n km kn = kn

module _ {W A B : Type 0} {P : W → Type 0} where
  Keeps-continue :
      (r : Result A) (f : A → Exec W B) → ((a : A) → Keeps P (f a)) → Keeps P (continue r f)
  Keeps-continue (ok a) f kf = kf a
  Keeps-continue (err e) f kf = record { at = λ w h. h }

  pub Keeps-bind :
      (call : Exec W A) (rest : A → Exec W B)
      → Keeps P call
      → ((answer : A) → Keeps P (rest answer))
      → Keeps P (call >>= rest)
  unfolding ◌>>=◌
  Keeps-bind call rest first later = record {
    at = λ w h. (Keeps-continue (call w).0 rest later).at (call w).1 (first.at w h);
  }

pub ruleset keeps_rules = (Keeps-pure, Keeps-fail, Keeps-reads, Keeps-attempt, Keeps-if, Keeps-bind)
