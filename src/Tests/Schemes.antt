-- ===== src/Tests/Schemes.antt =====
-- A scheme that is the list of the types that it knows, with their group and version.
use notebook_operator.Base.{◌≡◌, ◌⊎◌, refl, inl, inr, List, [], ◌∷◌, All}
use notebook_operator.Base.Text.{Text}
use notebook_operator.Exec.{Result, ok}
use notebook_operator.Manager.Scheme.{
  GroupVersion, group_version, SchemeLibrary, and_then, cluster_lab_types, instance_lab_types,
  notebook_lab_types, init_scheme,
}
use notebook_operator.Manager.Registered.{Registers, KnowsAll, init_scheme_knows}

abbrev Known : Type 0
Known = List (GroupVersion × Text)

abbrev Holds : GroupVersion → Text → Known → Type 0
Holds v name [] = ⊥
Holds v name ((u, other) ∷ s) = ((u ≡ v) × (other ≡ name)) ⊎ Holds v name s

abbrev in_turn : List (Known → Result Known) → Known → Result Known
in_turn [] s = ok s
in_turn (f ∷ fs) s = and_then (f s) (in_turn fs)

abbrev under : GroupVersion → List Text → Known → Known
under v [] s = s
under v (name ∷ names) s = (v, name) ∷ under v names s

abbrev schemes : SchemeLibrary
schemes = record {
  Scheme = Known;
  new_scheme = [];
  add_client_go = λ s. ok s;
  add_to_group_version = λ v s. s;
  add_known_types = under;
  apply_all = in_turn;
}

weaken :
    (P Q : Text → Type 0) (names : List Text)
    → ((name : Text) → P name → Q name)
    → All P names
    → All Q names
weaken P Q [] h all = tt
weaken P Q (name ∷ names) h (p, all) = (h name p, weaken P Q names h all)

under-Holds :
    (v : GroupVersion) (names : List Text) (s : Known)
    → All (λ name. Holds v name (under v names s)) names
under-Holds v [] s = tt
under-Holds v (name ∷ names) s = (
  inl (refl, refl),
  weaken (λ n. Holds v n (under v names s)) (λ n. Holds v n (under v (name ∷ names) s)) names
      (λ n h. inr h) (under-Holds v names s),
)

Holds-under :
    (v u : GroupVersion) (name : Text) (names : List Text) (s : Known)
    → Holds v name s
    → Holds v name (under u names s)
Holds-under v u name [] s h = h
Holds-under v u name (n ∷ names) s h = inr (Holds-under v u name names s h)

schemes-Registers : Registers schemes
schemes-Registers = record {
  Knows = Holds;
  told = under-Holds;
  kept = Holds-under;
  applied_none = λ s. refl;
  applied = λ f fs s. refl;
}

abbrev lab_scheme : Known
lab_scheme =
    under group_version notebook_lab_types
      (under group_version instance_lab_types (under group_version cluster_lab_types []))

scheme_made : init_scheme schemes ≡ ok lab_scheme
unfolding init_scheme
scheme_made = refl

init_scheme_knows_example : KnowsAll schemes schemes-Registers lab_scheme
init_scheme_knows_example = init_scheme_knows schemes schemes-Registers lab_scheme scheme_made
