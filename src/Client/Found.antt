-- ===== src/Client/Found.antt =====
-- Objects of which something holds: which calls keep them, and that a successful `CreateOrUpdate`
-- leaves one.
use notebook_operator.Base.{◌≡◌, ◌≢◌, ◌∙◌, inl}
use notebook_operator.Exec.{ok}
use notebook_operator.Exec.Keeps.{Keeps}
use notebook_operator.Exec.Ensures.{Ensures, Any, Ensures-of}
use notebook_operator.Kube.Meta.{NamespacedName}
use notebook_operator.Client.Defs.{Kind, secret, Obj, key_of, Client}
use notebook_operator.Client.Laws.{IsLawful}

module _ {Quantity : Type 0} (C : Client Quantity) where
  -- An object of that kind under that name, of which `Q` holds.
  abbrev pub Found : (k : Kind) → NamespacedName → (Obj Quantity k → Type 0) → C.World → Type 0
  Found k key Q w = (x : Obj Quantity k) × (C.get k key w ≡ ok x) × Q x

  module _ (L : IsLawful C) where
    module _ (j : Kind) (key : NamespacedName) (Q : Obj Quantity j → Type 0) where
      -- A status of another kind.
      pub Keeps-status :
          (k : Kind) → k ≢ j → (o : Obj Quantity k) → Keeps (Found j key Q) (C.update_status k o)
      Keeps-status k ne o = record {
        at = λ w (x, h, q). (x, L.get-update_status_ne k j o key w (inl ne) ∙ h, q);
      }

      -- A change of another kind.
      pub Keeps-change :
          (k : Kind) (o : Obj Quantity k) (f : Obj Quantity k → Obj Quantity k)
          → k ≢ j
          → ((x : Obj Quantity k) → key_of Quantity k (f x) ≡ key_of Quantity k x)
          → Keeps (Found j key Q) (C.create_or_update k o f)
      Keeps-change k o f ne names = record {
        at = λ w (x, h, q). (x, L.get-create_or_update_ne k j o f key w names (inl ne) ∙ h, q);
      }

    -- A successful `CreateOrUpdate` leaves an object that the function has changed.
    pub change-Ensures :
        (k : Kind) (o : Obj Quantity k) (f : Obj Quantity k → Obj Quantity k)
        (Q : Obj Quantity k → Type 0)
        → k ≢ secret
        → ((x : Obj Quantity k) → key_of Quantity k (f x) ≡ key_of Quantity k x)
        → ((x : Obj Quantity k) → Q (f x))
        → Ensures Any (C.create_or_update k o f) (λ _. Found k (key_of Quantity k o) Q)
    change-Ensures k o f Q plain names good = Ensures-of Any _ _ (λ w a p h.
        let (x, e) = L.get-create_or_update_self k o a f w plain names h in (f x, e, good x))
