-- ===== src/Base/Writes.antt =====
-- Several writes to a Go map, with the last of the list written first.
use mathlib.Core.Path.{◌≡◌, refl, ap, ◌∙◌}
use mathlib.Core.Option.{none, some, none-ne-some}
use mathlib.Core.List.{[], ◌∷◌}
use native.Mathlib.Omega.{arith}
use notebook_operator.Base.Text.{Text}
use notebook_operator.Base.Dict.{Dict, lookup, insert, lookup-insert}

module _ {V : Type 0} where
  -- Go's maps have each key once.
  abbrev pub HasDistinctKeys : Dict V → Type 0
  HasDistinctKeys [] = Unit {0}
  HasDistinctKeys ((k, v) ∷ m) = (lookup k m ≡ none) × HasDistinctKeys m

  abbrev pub write_all : Dict V → Dict V → Dict V
  write_all [] dict = dict
  write_all ((k, v) ∷ entries) dict = insert k v (write_all entries dict)

  abbrev Reads : Dict V → Dict V → Type 0
  Reads [] dict = Unit {0}
  Reads ((k, v) ∷ entries) dict = (lookup k dict ≡ some v) × Reads entries dict

  -- A write of the value that is there changes nothing.
  pub insert-lookup :
      (k : Text) (v : V) (dict : Dict V) → lookup k dict ≡ some v → insert k v dict ≡ dict
  unfolding lookup insert
  insert-lookup k v [] h = absurd (none-ne-some v h)
  insert-lookup k v ((j, old) ∷ rest) h = ground (arith, insert-lookup k v rest)

  Reads-insert :
      (k : Text) (v : V) (entries dict : Dict V)
      → lookup k entries ≡ none
      → Reads entries dict
      → Reads entries (insert k v dict)
  unfolding lookup
  Reads-insert k v [] dict h r = tt
  Reads-insert k v ((j, w) ∷ entries) dict h (r, rs) =
      (ground (arith, lookup-insert k j v dict), Reads-insert k v entries dict (ground arith) rs)

  Reads-write_all :
      (entries dict : Dict V) → HasDistinctKeys entries → Reads entries (write_all entries dict)
  Reads-write_all [] dict h = tt
  Reads-write_all ((k, v) ∷ entries) dict (h, hs) = (
    ground (arith, lookup-insert k k v (write_all entries dict)),
    Reads-insert k v entries (write_all entries dict) h (Reads-write_all entries dict hs),
  )

  write_all-Reads : (entries dict : Dict V) → Reads entries dict → write_all entries dict ≡ dict
  write_all-Reads [] dict r = refl
  write_all-Reads ((k, v) ∷ entries) dict (r, rs) =
      ap (insert k v) (write_all-Reads entries dict rs) ∙ insert-lookup k v dict r

  -- Writes under distinct keys that are made twice are made once.
  pub write_all_twice :
      (entries dict : Dict V)
      → HasDistinctKeys entries
      → write_all entries (write_all entries dict) ≡ write_all entries dict
  write_all_twice entries dict h =
      write_all-Reads entries (write_all entries dict) (Reads-write_all entries dict h)
