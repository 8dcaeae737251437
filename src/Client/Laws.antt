-- ===== src/Client/Laws.antt =====
-- What the proofs assume of the API server and of the helper packages.
use notebook_operator.Base.{none, some, [], ◌∷◌, ◌≡◌, ◌≢◌, ◌⊎◌}
use notebook_operator.Base.Text.{Text}
use notebook_operator.Base.Dict.{Dict, lookup}
use notebook_operator.Exec.{ok}
use notebook_operator.Kube.Meta.{ObjectMeta, NamespacedName}
use notebook_operator.Client.Defs.{Kind, secret, Obj, metadata_of, key_of, Client, Machinery}

-- Another kind, or another name.
abbrev pub Apart : Kind → NamespacedName → Kind → NamespacedName → Type 0
Apart k key j key' = (k ≢ j) ⊎ (key ≢ key')

module _ {Quantity : Type 0} (C : Client Quantity) where
  -- There is an object of that kind under that name.
  abbrev pub Exists : (k : Kind) → NamespacedName → C.World → Type 0
  Exists k key w = (o : Obj Quantity k) × (C.get k key w ≡ ok o)

  -- A client whose reads see its writes, as the one of `client.New`, with no other writer between
  -- the calls. A write touches the object that it names and no other, whether it fails or not. A
  -- successful create leaves what it returned, under a name that was free. A patch and an update of
  -- the status remove nothing. A successful `CreateOrUpdate` with a function that keeps names leaves
  -- the function's result on some object, but for secrets, which the server converts. A successful
  -- `DeleteAllOf` leaves of the objects that it selects at most those that finalizers or a grace
  -- period hold back, which then have a deletion timestamp.
  pub record IsLawful : Type 0 where
    pub get-create_ne :
        (k j : Kind) (o : Obj Quantity k) (key : NamespacedName) (w : C.World)
        → Apart k (key_of Quantity k o) j key
        → C.get j key (C.create k o w).1 ≡ C.get j key w
    pub get-create_self :
        (k : Kind) (o o' : Obj Quantity k) (w : C.World)
        → (C.create k o w).0 ≡ ok o'
        → C.get k (key_of Quantity k o) (C.create k o w).1 ≡ ok o'
    pub get-create_old :
        (k j : Kind) (o : Obj Quantity k) (key : NamespacedName) (x : Obj Quantity j) (w : C.World)
        → C.get j key w ≡ ok x
        → C.get j key (C.create k o w).1 ≡ ok x
    pub get-patch_ne :
        (k j : Kind) (o n : Obj Quantity k) (key : NamespacedName) (w : C.World)
        → Apart k (key_of Quantity k o) j key
        → C.get j key (C.patch k o n w).1 ≡ C.get j key w
    pub Exists-patch :
        (k j : Kind) (o n : Obj Quantity k) (key : NamespacedName) (w : C.World)
        → Exists j key w
        → Exists j key (C.patch k o n w).1
    pub get-update_ne :
        (k j : Kind) (o : Obj Quantity k) (key : NamespacedName) (w : C.World)
        → Apart k (key_of Quantity k o) j key
        → C.get j key (C.update k o w).1 ≡ C.get j key w
    pub get-update_status_ne :
        (k j : Kind) (o : Obj Quantity k) (key : NamespacedName) (w : C.World)
        → Apart k (key_of Quantity k o) j key
        → C.get j key (C.update_status k o w).1 ≡ C.get j key w
    pub Exists-update_status :
        (k j : Kind) (o : Obj Quantity k) (key : NamespacedName) (w : C.World)
        → Exists j key w
        → Exists j key (C.update_status k o w).1
    pub get-create_or_update_ne :
        (k j : Kind) (o : Obj Quantity k) (f : Obj Quantity k → Obj Quantity k)
        (key : NamespacedName) (w : C.World)
        → ((x : Obj Quantity k) → key_of Quantity k (f x) ≡ key_of Quantity k x)
        → Apart k (key_of Quantity k o) j key
        → C.get j key (C.create_or_update k o f w).1 ≡ C.get j key w
    pub get-create_or_update_self :
        (k : Kind) (o o' : Obj Quantity k) (f : Obj Quantity k → Obj Quantity k) (w : C.World)
        → k ≢ secret
        → ((x : Obj Quantity k) → key_of Quantity k (f x) ≡ key_of Quantity k x)
        → (C.create_or_update k o f w).0 ≡ ok o'
        → (x : Obj Quantity k) × (C.get k (key_of Quantity k o) (C.create_or_update k o f w).1
            ≡ ok (f x))
    pub get-delete_all_of_ne :
        (k j : Kind) (ns : Text) (labels : Dict Text) (key : NamespacedName) (w : C.World)
        → k ≢ j
        → C.get j key (C.delete_all_of k ns labels w).1 ≡ C.get j key w
    pub delete_all_of-IsLeaving :
        (k : Kind) (ns label v : Text) (key : NamespacedName) (x : Obj Quantity k) (w : C.World)
        → (C.delete_all_of k ns ((label, v) ∷ []) w).0 ≡ ok tt
        → key.namespace ≡ ns
        → C.get k key (C.delete_all_of k ns ((label, v) ∷ []) w).1 ≡ ok x
        → lookup label (metadata_of Quantity k x).labels ≡ some v
        → (metadata_of Quantity k x).deletion_timestamp ≢ none
    pub get-delete_ne :
        (k j : Kind) (o : Obj Quantity k) (key : NamespacedName) (w : C.World)
        → Apart k (key_of Quantity k o) j key
        → C.get j key (C.delete k o w).1 ≡ C.get j key w

-- `SetControllerReference` writes the owner references, `AddFinalizer` and `RemoveFinalizer` the
-- finalizers, and none of them the names.
pub record KeepsNames (M : Machinery) : Type 0 where
  pub name :
      (owner m m' : ObjectMeta) → M.set_controller_reference owner m ≡ ok m' → m'.name ≡ m.name
  pub namespace :
      (owner m m' : ObjectMeta)
      → M.set_controller_reference owner m ≡ ok m'
      → m'.namespace ≡ m.namespace
  pub add_finalizer_name : (m : ObjectMeta) (f : Text) → (M.add_finalizer m f).name ≡ m.name
  pub add_finalizer_namespace :
      (m : ObjectMeta) (f : Text) → (M.add_finalizer m f).namespace ≡ m.namespace
  pub remove_finalizer_name : (m : ObjectMeta) (f : Text) → (M.remove_finalizer m f).name ≡ m.name
  pub remove_finalizer_namespace :
      (m : ObjectMeta) (f : Text) → (M.remove_finalizer m f).namespace ≡ m.namespace
