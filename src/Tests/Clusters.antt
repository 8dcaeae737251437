-- ===== src/Tests/Clusters.antt =====
-- The resources and the status of a cluster lab, at concrete values.
use notebook_operator.Base.{List, ℕ, ◌≤◌, ◌≡◌, ◌↔◌, refl, none, some, [], ◌∷◌, arith}
use notebook_operator.Base.Int.{pos}
use notebook_operator.Base.Text.{Text, codes}
use notebook_operator.Base.Dict.{lookup}
use notebook_operator.Exec.{ok}
use notebook_operator.Kube.Objects.{NetworkPolicy}
use notebook_operator.Api.InstanceLab.{InstanceLab}
use notebook_operator.ClusterLab.Provision.{quota_hard, lab_policy, namespace_labels}
use notebook_operator.ClusterLab.Status.{count_instances}
use notebook_operator.ClusterLab.Reconcile.{Ttl, reconcile_ttl}
use notebook_operator.ClusterLab.Isolation.{Admits, Open, outside, lab_policy_lem}
use notebook_operator.ClusterLab.Converges.{lab_objects_converge}
use notebook_operator.ClusterLab.Counts.{how_many, belongs, runs, count_instances_lem}
use notebook_operator.ClusterLab.Quota.{limit_of, quota_hard_lem}
use notebook_operator.ClusterLab.Ttl.{Expires, reconcile_ttl_lem}
use notebook_operator.Tests.Fixtures.{machinery, metadata}
use notebook_operator.Tests.Labs.{quota, lab, lab_clock, one_hour}

-- A policy that governs the egress of one pod.
abbrev old_policy : NetworkPolicy
old_policy = record {
  metadata = lab.metadata;
  spec = record {
    pod_selector = record { match_labels = (codes "app", codes "vm") ∷ [] };
    policy_types = codes "Egress" ∷ [];
    ingress = [];
  };
}

lab_policy_lem_example :
    Admits (lab_policy (codes "Internal") old_policy) ((codes "app", codes "db") ∷ []) outside
    ↔ Open (codes "Internal") outside
lab_policy_lem_example =
    lab_policy_lem (codes "Internal") old_policy ((codes "app", codes "db") ∷ []) outside

quota_hard_lem_example :
    lookup (codes "limits.memory") (quota_hard machinery quota ((codes "limits.memory", 8) ∷ []))
    ≡ elim (limit_of machinery quota (codes "limits.memory")) [
      | none ↦ lookup (codes "limits.memory") ((codes "limits.memory", 8) ∷ [])
      | some q ↦ some q
    ]
quota_hard_lem_example =
    quota_hard_lem machinery quota ((codes "limits.memory", 8) ∷ []) (codes "limits.memory")

abbrev instance : Text → InstanceLab ℕ
instance phase = record {
  metadata = metadata (codes "default") (codes "vm");
  spec = record {
    cluster_lab_ref = codes "ml";
    image = [];
    image_pull_secrets = [];
    hostname = [];
    resources = record {
      cpu = record { request = 0; limit = 0 };
      memory = record { request = 0; limit = 0 };
      storage = record { limit = 0 };
    };
    ports = [];
  };
  status = record {
    phase = phase;
    pod_name = [];
    pod_ip = [];
    access_endpoints = [];
    conditions = [];
  };
}

abbrev instances : List (InstanceLab ℕ)
instances = instance (codes "Running") ∷ instance (codes "Creating") ∷ []

count_instances_lem_example :
    (count_instances (codes "ml") instances (record { total = pos 0; ready = pos 0 }) ≡ record {
      total = pos (how_many (belongs (codes "ml")) instances);
      ready = pos (how_many (runs (codes "ml")) instances);
    })
    × (how_many (runs (codes "ml")) instances ≤ how_many (belongs (codes "ml")) instances)
unfolding codes
count_instances_lem_example = count_instances_lem (codes "ml") instances (ground arith)

reconcile_ttl_lem_example :
    (t : Ttl ℕ) × (reconcile_ttl one_hour lab_clock lab ≡ ok t)
    × Expires lab_clock lab (pos 3600000000000) t
unfolding codes
reconcile_ttl_lem_example = reconcile_ttl_lem one_hour lab_clock lab (pos 3600000000000) refl refl

lab_objects_converge_example :
    (namespace_labels lab.metadata (namespace_labels lab.metadata [])
      ≡ namespace_labels lab.metadata [])
    × (quota_hard machinery quota (quota_hard machinery quota ((codes "limits.memory", 8) ∷ []))
        ≡ quota_hard machinery quota ((codes "limits.memory", 8) ∷ []))
    × (lab_policy (codes "Internal") (lab_policy (codes "Internal") old_policy)
        ≡ lab_policy (codes "Internal") old_policy)
unfolding lookup
lab_objects_converge_example =
    lab_objects_converge machinery quota ((codes "limits.memory", 8) ∷ []) lab.metadata []
      (codes "Internal") old_policy (refl, tt)
