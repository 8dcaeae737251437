-- ===== src/Client/Memory.antt =====
-- A client over tables in memory, which meets the laws. It answers a create with the object as it
-- stores it: a secret's `StringData` is merged into its `Data`, as the API server does.
pub mod Lawful
use notebook_operator.Base.{
  Bool, true, false, ◌&&◌, Option, none, some, List, [], ◌∷◌, ◌++◌, if◌then◌else◌,
}
use notebook_operator.Base.Text.{Text, ◌==◌, codes}
use notebook_operator.Base.Dict
use notebook_operator.Base.Dict.{Dict}
use notebook_operator.Exec.{Failure, api, Result, ok, err, Exec}
use notebook_operator.Kube.Meta.{NamespacedName}
use notebook_operator.Client.Defs.{Kind, secret, Obj, metadata_of, key_of, Client}
use notebook_operator.Client.Tables.{find, remove, Table, Tables, replace}

abbrev pub exists_already : Failure
exists_already = api false (codes "already exists")

module _ (Quantity : Type 0) where
  unfoldable pub settle : (k : Kind) → Obj Quantity k → Obj Quantity k
  settle secret s = record s { data_map = s.string_data ++ s.data_map; string_data = [] }
  settle _ o = o

  abbrev pub found : {A : Type 0} → Option A → Result A
  found none = err (api true (codes "not found"))
  found (some a) = ok a

  abbrev pub get : (k : Kind) → NamespacedName → Tables Quantity → Result (Obj Quantity k)
  get k key w = found (find key (w k))

  unfoldable pub has_all : Dict Text → Dict Text → Bool
  has_all labels [] = true
  has_all labels ((k, v) ∷ wanted) =
      elim (Dict.lookup k labels) [ none ↦ false | some u ↦ u == v ] && has_all labels wanted

  unfoldable pub matching : (k : Kind) → Text → Dict Text → Table Quantity k → List (Obj Quantity k)
  unfolding has_all
  matching k ns wanted [] = []
  matching k ns wanted ((key, o) ∷ t) =
      let rest = matching k ns wanted t in
      if key.namespace == ns && has_all (metadata_of Quantity k o).labels wanted
      then o ∷ rest
      else rest

  unfoldable pub without : (k : Kind) → Text → Dict Text → Table Quantity k → Table Quantity k
  unfolding has_all
  without k ns wanted [] = []
  without k ns wanted ((key, o) ∷ t) =
      let rest = without k ns wanted t in
      if key.namespace == ns && has_all (metadata_of Quantity k o).labels wanted
      then rest
      else (key, o) ∷ rest

  unfoldable pub create : (k : Kind) → Obj Quantity k → Exec (Tables Quantity) (Obj Quantity k)
  create k o w = elim (find (key_of Quantity k o) (w k)) [
    | some old ↦ (err exists_already, w)
    | none ↦ (ok (settle k o), replace Quantity k ((key_of Quantity k o, settle k o) ∷ w k) w)
  ]

  -- The object under `key` becomes `n`.
  unfoldable pub overwrite :
      (k : Kind) → NamespacedName → Obj Quantity k → Exec (Tables Quantity) (Obj Quantity k)
  overwrite k key n w = elim (find key (w k)) [
    | none ↦ (err (api true (codes "not found")), w)
    | some old ↦ (ok n, replace Quantity k ((key, n) ∷ remove key (w k)) w)
  ]

  unfoldable pub delete : (k : Kind) → Obj Quantity k → Exec (Tables Quantity) (Unit {0})
  delete k o w = elim (find (key_of Quantity k o) (w k)) [
    | none ↦ (err (api true (codes "not found")), w)
    | some old ↦ (ok tt, replace Quantity k (remove (key_of Quantity k o) (w k)) w)
  ]

  unfoldable pub create_or_update :
      (k : Kind)
      → Obj Quantity k
      → (Obj Quantity k → Obj Quantity k)
      → Exec (Tables Quantity) (Obj Quantity k)
  unfolding create overwrite
  create_or_update k o f w = elim (find (key_of Quantity k o) (w k)) [
    | none ↦ create k (f o) w
    | some old ↦ overwrite k (key_of Quantity k o) (f old) w
  ]

  abbrev pub memory : Client Quantity
  memory = record {
    World = Tables Quantity;
    get = get;
    list = λ k ns w. ok (matching k ns [] (w k));
    create = create;
    update = λ k o. overwrite k (key_of Quantity k o) o;
    update_status = λ k o. overwrite k (key_of Quantity k o) o;
    patch = λ k o n. overwrite k (key_of Quantity k o) n;
    delete = delete;
    delete_all_of = λ k ns labels w. (ok tt, replace Quantity k (without k ns labels (w k)) w);
    create_or_update = create_or_update;
  }
