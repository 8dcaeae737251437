-- ===== src/System/Neighbours.antt =====
-- Cluster labs next to each other, and instances in the namespace of one.
use notebook_operator.Base.{◌≤◌, ◌≡◌, ◌≢◌, ◌∙◌, refl, ap, sym, Option, List, inl, inr, length}
use notebook_operator.Base.Text.{Text}
use notebook_operator.Base.Dict.{Dict}
use notebook_operator.Base.Duration.{Duration}
use notebook_operator.Exec.{Result, ok, err}
use notebook_operator.Kube.Meta.{NamespacedName}
use notebook_operator.Api.ClusterLab.{ClusterLab}
use notebook_operator.Utils.Names.{generate_target_namespace}
use notebook_operator.Utils.Names.Labels.{generate_target_namespace_injective}
use notebook_operator.Client.{
  Kind, Obj, Client, Machinery, namespace, resource_quota, network_policy,
}
use notebook_operator.Client.Frame.{Still}
use notebook_operator.Client.Found.{Found}
use notebook_operator.Client.Laws.{Apart, IsLawful, KeepsNames}
use notebook_operator.ClusterLab.Reconcile.{namespace_key, doomed_namespace}
use notebook_operator.ClusterLab.Governed.{IsGoverned}
use notebook_operator.System.Owned.{IsOwn, OwnFound, OwnFound-of, TellsStatus, Owned}
use notebook_operator.System.OwnedRuns.{lab_run-Owned, instance_run-Owned}
use notebook_operator.System.Steps.{Runs, Runs-Keeps}
use notebook_operator.System.Labs.{IsForeign, IsUnrelated, lab_run-Still}
use notebook_operator.System.Instances
use notebook_operator.System.Instances.{unwritten-IsUntouched, instance_run-Still}

module _ {Quantity : Type 0} (lab : ClusterLab Quantity) where
  -- Another cluster lab, which has a name of at most 59 bytes.
  pub record IsNeighbour (b : ClusterLab Quantity) : Type 0 where
    pub other : b.metadata.name ≢ lab.metadata.name
    pub short : length b.metadata.name ≤ 59

  -- What is read is no cluster lab or a neighbour.
  abbrev pub Neighbouring : Result (ClusterLab Quantity) → Type 0
  Neighbouring (ok b) = IsNeighbour b
  Neighbouring (err e) = Unit {0}

  -- The objects by which a cluster lab governs its namespace.
  pub data Governs : Kind → NamespacedName → Type 0 where
    its_namespace :
        (key : NamespacedName)
        → key ≡ namespace_key (generate_target_namespace lab.metadata.name)
        → Governs namespace key
    its_quota :
        (key : NamespacedName)
        → key.namespace ≡ generate_target_namespace lab.metadata.name
        → Governs resource_quota key
    its_policy :
        (key : NamespacedName)
        → key.namespace ≡ generate_target_namespace lab.metadata.name
        → Governs network_policy key

  module _ (short : length lab.metadata.name ≤ 59) (b : ClusterLab Quantity) (n : IsNeighbour b)
      (own : IsOwn b) where
    targets_differ :
        generate_target_namespace b.metadata.name ≢ generate_target_namespace lab.metadata.name
    targets_differ e = n.other (generate_target_namespace_injective _ _ n.short short e)

    Governs-IsForeign :
        {j : Kind} {key : NamespacedName} → Governs j key → IsForeign b.metadata j key
    Governs-IsForeign (its_namespace key e) = record {
      itself = inl (λ k. cc);
      target = inr (λ k. targets_differ (ap (λ (x : NamespacedName). x.name) (k ∙ e)));
      quota = inl (λ k. cc);
      policy = inl (λ k. cc);
    }
    Governs-IsForeign (its_quota key e) = record {
      itself = inl (λ k. cc);
      target = inl (λ k. cc);
      quota = inr (λ k. targets_differ (ap (λ (x : NamespacedName). x.namespace) k ∙ e));
      policy = inl (λ k. cc);
    }
    Governs-IsForeign (its_policy key e) = record {
      itself = inl (λ k. cc);
      target = inl (λ k. cc);
      quota = inl (λ k. cc);
      policy = inr (λ k. targets_differ (ap (λ (x : NamespacedName). x.namespace) k ∙ e));
    }

    Governs-doomed :
        {j : Kind} {key : NamespacedName}
        → Governs j key
        → Apart namespace (namespace_key (doomed_namespace b)) j key
    Governs-doomed (its_namespace key e) = inr (λ k.
        targets_differ (ap (λ (x : NamespacedName). x.name) (ap namespace_key (sym own) ∙ k ∙ e)))
    Governs-doomed (its_quota key e) = inl (λ k. cc)
    Governs-doomed (its_policy key e) = inl (λ k. cc)

  Governs-IsUnrelated :
      length lab.metadata.name ≤ 59
      → {j : Kind} {key : NamespacedName} → Governs j key
      → (s : Result (ClusterLab Quantity)) → Neighbouring s
      → OwnFound s
      → IsUnrelated j key s
  Governs-IsUnrelated short g (ok b) n own =
      (Governs-IsForeign short b n own g, Governs-doomed short b n own g)
  Governs-IsUnrelated short g (err e) n own = tt

  Governs-IsUntouched : {j : Kind} {key : NamespacedName} → Governs j key → Instances.IsUntouched j
  Governs-IsUntouched (its_namespace key e) = unwritten-IsUntouched refl
  Governs-IsUntouched (its_quota key e) = unwritten-IsUntouched refl
  Governs-IsUntouched (its_policy key e) = unwritten-IsUntouched refl

-- Everything else in the cluster leaves these objects alone, and puts no other namespace into the
-- status of a cluster lab.
pub record Respects {Quantity : Type 0} (C : Client Quantity) (lab : ClusterLab Quantity)
    (Other : C.World → C.World → Type 0) : Type 0 where
  pub leaves :
      (j : Kind) (key : NamespacedName) (u v : C.World)
      → Governs lab j key
      → Other u v
      → C.get j key v ≡ C.get j key u
  pub owned : (u v : C.World) → Other u v → Owned C u → Owned C v

module _ (M : Machinery) (C : Client M.Quantity) (L : IsLawful C) (N : KeepsNames M)
    (S : TellsStatus C) (parse_duration : Text → Option Duration)
    (order : Dict Text → List (Text × Text)) (env : Text → Text) (lab : ClusterLab M.Quantity)
    (short : length lab.metadata.name ≤ 59) (Other : C.World → C.World → Type 0)
    (respects : Respects C lab Other) where
  -- The statuses are as they should be, and the object or the error is the one that it was.
  abbrev Keeping : (j : Kind) → NamespacedName → Result (Obj M.Quantity j) → C.World → Type 0
  Keeping j key r w = Owned C w × Still C L j key r w

  governing_kept :
      {j : Kind} {key : NamespacedName} {w v : C.World}
      → Governs lab j key
      → Owned C w
      → Runs M C parse_duration order env (Neighbouring lab) Other w v
      → Keeping j key (C.get j key w) v
  governing_kept {j} {key} {w} g owned runs =
      Runs-Keeps M C parse_duration order env (Keeping j key (C.get j key w))
        (λ clock req u fits (own, same). (
          lab_run-Owned M C L N S parse_duration clock req u own,
          lab_run-Still M C L N j key _ parse_duration clock req u
              (Governs-IsUnrelated lab short g _ fits (OwnFound-of _ (own req))) same,
        ))
        (λ now req u (own, same). (
          instance_run-Owned M C L N S order env now req u own,
          instance_run-Still M C L j (Governs-IsUntouched lab g) key _ order env now req u same,
        ))
        (λ u u' other (own, same).
          (respects.owned u u' other own, respects.leaves j key u u' g other ∙ same))
        runs (owned, refl)

  found_kept :
      {j : Kind} {key : NamespacedName} (Q : Obj M.Quantity j → Type 0) {w v : C.World}
      → Governs lab j key
      → Owned C w
      → Runs M C parse_duration order env (Neighbouring lab) Other w v
      → Found C j key Q w
      → Found C j key Q v
  found_kept Q g owned runs (x, e, q) = (x, (governing_kept g owned runs).1 ∙ e, q)

  -- Let a cluster lab with a name of at most 59 bytes be governed, that is, its target namespace
  -- exists, with a quota that has every limit that it asks for and a network policy that admits
  -- exactly what its network type promises; and let no status of a cluster lab name another namespace
  -- than the one made of its name. Both stay so, whatever runs of the InstanceLab controller and runs
  -- of the ClusterLab controller on other requests follow and whether they fail or not, if the cluster
  -- labs that these find have other names of at most 59 bytes, and if everything else in the cluster
  -- leaves the namespace and its quotas and policies alone and puts no other namespace into a status.
  -- The client is assumed to obey its laws and to store what it is told of cluster labs, and the
  -- finalizer helpers to leave names alone.
  pub Runs-IsGoverned :
      {w v : C.World}
      → IsGoverned M C lab w
      → Owned C w
      → Runs M C parse_duration order env (Neighbouring lab) Other w v
      → IsGoverned M C lab v × Owned C v
  Runs-IsGoverned g owned runs = (
    record {
      there = found_kept (λ n. Unit {0}) (its_namespace _ refl) owned runs g.there;
      limited = found_kept _ (its_quota _ refl) owned runs g.limited;
      isolated = found_kept _ (its_policy _ refl) owned runs g.isolated;
    },
    (governing_kept (its_namespace _ refl) owned runs).0,
  )
