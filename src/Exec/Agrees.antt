-- ===== src/Exec/Agrees.antt =====
-- Runs in parts that end at the first error, which is reported once.
use notebook_operator.Base.{◌≡◌, refl, Option, none, some}
use notebook_operator.Exec.{Failure, Result, ok, err, Exec, attempt, continue, ◌>>=◌}

-- The world of a run in parts, next to the mark of the part that runs: under what an error of it is
-- reported, or `none` if it is not reported.
abbrev pub Marked : Type 0 → Type 0 → Type 0
Marked R W = Option R × W

module _ {R W A : Type 0} where
  -- A part with its mark: it runs as it is, with no report.
  pub part : Option R → Exec W A → Exec (Marked R W) A
  part mark m s = ((m s.1).0, (mark, (m s.1).1))

module _ {R W : Type 0} (report : R → Failure → W → W) where
  abbrev pub report_of : Option R → Failure → W → W
  report_of none e w = w
  report_of (some r) e w = report r e w

  -- How a run in parts ends: with its value, or with the error of the part that failed, after the
  -- report of it.
  abbrev pub settle : {A : Type 0} → Result A → Marked R W → Result A × W
  settle (ok a) s = (ok a, s.1)
  settle (err e) s = (err e, report_of s.0 e s.1)

  -- `m` does what the parts of `n` do up to the first error, and then reports it, and no more.
  pub record Agrees {A : Type 0} (m : Exec W A) (n : Exec (Marked R W) A) : Type 0 where
    pub at : (s : Marked R W) → m s.1 ≡ settle (n s).0 (n s).1

  module _ {A : Type 0} where
    settle_unmarked : (r : Result A) (w : W) → (r, w) ≡ settle r (none, w)
    settle_unmarked (ok a) w = refl
    settle_unmarked (err e) w = refl

    pub Agrees-part : (m : Exec W A) → Agrees m (part none m)
    unfolding part
    Agrees-part m = record { at = λ s. settle_unmarked (m s.1).0 (m s.1).1 }

  module _ {A B : Type 0} where
    continue_settled :
        (f : A → Exec W B) (g : A → Exec (Marked R W) B) (r : Result A) (s : Marked R W)
        → ((a : A) → Agrees (f a) (g a))
        → continue (settle r s).0 f (settle r s).1 ≡ settle (continue r g s).0 (continue r g s).1
    continue_settled f g (ok a) s later = (later a).at s
    continue_settled f g (err e) s later = refl

    pub Agrees-bind :
        (m : Exec W A) (n : Exec (Marked R W) A) (f : A → Exec W B) (g : A → Exec (Marked R W) B)
        → Agrees m n
        → ((a : A) → Agrees (f a) (g a))
        → Agrees (m >>= f) (n >>= g)
    unfolding ◌>>=◌
    Agrees-bind m n f g first later = record {
      at = λ s. rw (first.at s) (continue_settled f g (n s).0 (n s).1 later);
    }

  -- A handler that returns values, and passes errors on after the report.
  pub record PassesOn {A : Type 0} (mark : R) (by : Result A → Exec W A) : Type 0 where
    pub value : (a : A) (w : W) → by (ok a) w ≡ (ok a, w)
    pub error : (e : Failure) (w : W) → by (err e) w ≡ (err e, report mark e w)

  module _ {A : Type 0} (mark : R) (by : Result A → Exec W A) (p : PassesOn mark by) where
    handled_lem : (r : Result A) (w : W) → by r w ≡ settle r (some mark, w)
    handled_lem (ok a) w = p.value a w
    handled_lem (err e) w = p.error e w

    pub Agrees-handled : (m : Exec W A) → Agrees (attempt m >>= by) (part (some mark) m)
    unfolding part ◌>>=◌
    Agrees-handled m = record { at = λ s. handled_lem (m s.1).0 (m s.1).1 }
