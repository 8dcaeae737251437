-- ===== src/Base/Dict.antt =====
-- Go maps with string keys, as association lists. A nil map and an empty map read alike, and the
-- program makes a map before it writes to one, so both are the empty list.
use mathlib.Core.Path.{◌≡◌, refl}
use mathlib.Core.Option.{Option, none, some}
use mathlib.Core.List.{List, [], ◌∷◌}
use native.Mathlib.Omega.{arith}
use notebook_operator.Base.Tests.{if◌then◌else◌}
use notebook_operator.Base.Text.{Text, ◌==◌}

abbrev pub Dict {ℓ} : Type ℓ → Type ℓ
Dict V = List (Text × V)

module _ {ℓ} {V : Type ℓ} where
  -- `v, ok := m[k]`
  unfoldable pub lookup : Text → Dict V → Option V
  lookup key [] = none
  lookup key ((k, old) ∷ rest) = if k == key then some old else lookup key rest

  -- `m[k] = v`
  unfoldable pub insert : Text → V → Dict V → Dict V
  insert key new [] = (key, new) ∷ []
  insert key new ((k, old) ∷ rest) =
      if k == key then (key, new) ∷ rest else (k, old) ∷ insert key new rest

  -- What a read finds after a write.
  pub lookup-insert :
      (written read : Text) (new : V) (dict : Dict V)
      → lookup read (insert written new dict)
        ≡ (if written == read then some new else lookup read dict)
  unfolding lookup insert
  lookup-insert written read new [] = refl
  lookup-insert written read new ((k, old) ∷ rest) =
      ground (arith, lookup-insert written read new rest)
