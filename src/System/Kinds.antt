-- ===== src/System/Kinds.antt =====
-- The kinds of objects that no controller of the manager writes.
use notebook_operator.Base.{◌≡◌, ◌≢◌, ◌∙◌, refl, Option, List, inl}
use notebook_operator.Base.Text.{Text}
use notebook_operator.Base.Dict.{Dict}
use notebook_operator.Base.Duration.{Duration}
use notebook_operator.Exec.{Result, ok, err}
use notebook_operator.Kube.Meta.{NamespacedName}
use notebook_operator.Api.ClusterLab.{ClusterLab}
use notebook_operator.Client.{
  Kind, Client, Machinery, notebooklab, secret, deployment, clusterlab, namespace, resource_quota,
  network_policy,
}
use notebook_operator.Client.Frame.{Still}
use notebook_operator.Client.Laws.{IsLawful, KeepsNames}
use notebook_operator.System.Steps.{Runs, Runs-Keeps}
use notebook_operator.System.Labs.{IsUnrelated, lab_run-Still}
use notebook_operator.System.Instances
use notebook_operator.System.Instances.{unwritten-IsUntouched, instance_run-Still}

-- The kinds that are left to the NotebookLab controller.
pub data IsNotebookKind : Kind → Type 0 where
  its_notebook : IsNotebookKind notebooklab
  its_secret : IsNotebookKind secret
  its_deployment : IsNotebookKind deployment

IsNotebookKind-IsUntouched : {j : Kind} → IsNotebookKind j → Instances.IsUntouched j
IsNotebookKind-IsUntouched its_notebook = unwritten-IsUntouched refl
IsNotebookKind-IsUntouched its_secret = unwritten-IsUntouched refl
IsNotebookKind-IsUntouched its_deployment = unwritten-IsUntouched refl

-- No kind that the ClusterLab controller writes.
abbrev NotLab : Kind → Type 0
NotLab j = (clusterlab ≢ j) × (namespace ≢ j) × (resource_quota ≢ j) × (network_policy ≢ j)

IsNotebookKind-NotLab : {j : Kind} → IsNotebookKind j → NotLab j
IsNotebookKind-NotLab its_notebook = (λ e. cc, λ e. cc, λ e. cc, λ e. cc)
IsNotebookKind-NotLab its_secret = (λ e. cc, λ e. cc, λ e. cc, λ e. cc)
IsNotebookKind-NotLab its_deployment = (λ e. cc, λ e. cc, λ e. cc, λ e. cc)

NotLab-IsUnrelated :
    {Quantity : Type 0} (j : Kind) (key : NamespacedName)
    → NotLab j
    → (s : Result (ClusterLab Quantity)) → IsUnrelated j key s
NotLab-IsUnrelated j key (a, b, c, d) (ok lab) =
    (record { itself = inl a; target = inl b; quota = inl c; policy = inl d }, inl b)
NotLab-IsUnrelated j key h (err e) = tt

module _ (M : Machinery) (C : Client M.Quantity) (parse_duration : Text → Option Duration)
    (order : Dict Text → List (Text × Text)) (env : Text → Text) where
  -- Whatever runs of the ClusterLab and InstanceLab controllers follow one another, on whatever
  -- requests and whether they fail or not, every read of a NotebookLab, a Secret or a Deployment
  -- answers in the end what it did at first, if what else happens in the cluster does not change that
  -- answer. The client is assumed to obey its laws, and the finalizer helpers to leave names alone.
  pub notebook_kinds_kept :
      (L : IsLawful C) (N : KeepsNames M) (Other : C.World → C.World → Type 0) (j : Kind)
      (key : NamespacedName) {w v : C.World}
      → IsNotebookKind j
      → ((u u' : C.World) → Other u u' → C.get j key u' ≡ C.get j key u)
      → Runs M C parse_duration order env (λ _. Unit {0}) Other w v
      → C.get j key v ≡ C.get j key w
  notebook_kinds_kept L N Other j key {w} its still runs =
      Runs-Keeps M C parse_duration order env (Still C L j key (C.get j key w))
        (λ clock req u fits same.
          lab_run-Still M C L N j key _ parse_duration clock req u
            (NotLab-IsUnrelated j key (IsNotebookKind-NotLab its) _) same)
        (λ now req u same.
          instance_run-Still M C L j (IsNotebookKind-IsUntouched its) key _ order env now req u
            same)
        (λ u u' other same. still u u' other ∙ same) runs refl
