-- ===== src/Client/Frame.antt =====
-- The calls that leave an object as it is: those that name another.
use notebook_operator.Base.{◌≡◌, ◌≢◌, ◌∙◌}
use notebook_operator.Base.Text.{Text}
use notebook_operator.Base.Dict.{Dict}
use notebook_operator.Exec.{Result}
use notebook_operator.Exec.Keeps.{Keeps}
use notebook_operator.Kube.Meta.{NamespacedName}
use notebook_operator.Client.Defs.{Kind, Obj, key_of, Client}
use notebook_operator.Client.Laws.{Apart, IsLawful}

module _ {Quantity : Type 0} (C : Client Quantity) (L : IsLawful C) (j : Kind)
    (key : NamespacedName) (r : Result (Obj Quantity j)) where
  -- The object of that kind under that name, or the error, is still the one that it was.
  abbrev pub Still : C.World → Type 0
  Still w = C.get j key w ≡ r

  pub create-Still :
      (k : Kind) (o : Obj Quantity k)
      → Apart k (key_of Quantity k o) j key
      → Keeps Still (C.create k o)
  create-Still k o ne = record { at = λ w h. L.get-create_ne k j o key w ne ∙ h }

  pub update-Still :
      (k : Kind) (o : Obj Quantity k)
      → Apart k (key_of Quantity k o) j key
      → Keeps Still (C.update k o)
  update-Still k o ne = record { at = λ w h. L.get-update_ne k j o key w ne ∙ h }

  pub update_status-Still :
      (k : Kind) (o : Obj Quantity k)
      → Apart k (key_of Quantity k o) j key
      → Keeps Still (C.update_status k o)
  update_status-Still k o ne = record { at = λ w h. L.get-update_status_ne k j o key w ne ∙ h }

  pub patch-Still :
      (k : Kind) (o n : Obj Quantity k)
      → Apart k (key_of Quantity k o) j key
      → Keeps Still (C.patch k o n)
  patch-Still k o n ne = record { at = λ w h. L.get-patch_ne k j o n key w ne ∙ h }

  pub delete-Still :
      (k : Kind) (o : Obj Quantity k)
      → Apart k (key_of Quantity k o) j key
      → Keeps Still (C.delete k o)
  delete-Still k o ne = record { at = λ w h. L.get-delete_ne k j o key w ne ∙ h }

  pub delete_all_of-Still :
      (k : Kind) (ns : Text) (labels : Dict Text)
      → k ≢ j
      → Keeps Still (C.delete_all_of k ns labels)
  delete_all_of-Still k ns labels ne = record {
    at = λ w h. L.get-delete_all_of_ne k j ns labels key w ne ∙ h;
  }

  pub create_or_update-Still :
      (k : Kind) (o : Obj Quantity k) (f : Obj Quantity k → Obj Quantity k)
      → ((x : Obj Quantity k) → key_of Quantity k (f x) ≡ key_of Quantity k x)
      → Apart k (key_of Quantity k o) j key
      → Keeps Still (C.create_or_update k o f)
  create_or_update-Still k o f names ne = record {
    at = λ w h. L.get-create_or_update_ne k j o f key w names ne ∙ h;
  }
