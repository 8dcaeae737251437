-- ===== src/Tests/Labs.antt =====
-- Cluster labs for the tests.
use notebook_operator.Base.{Option, ℕ, none, some, [], ◌∷◌}
use notebook_operator.Base.Int.{pos}
use notebook_operator.Base.Text.{Text, codes}
use notebook_operator.Base.Duration.{Duration}
use notebook_operator.Kube.Meta.{NamespacedName}
use notebook_operator.Api.ClusterLab.{ClusterLab, ClusterLabQuotaConfig}
use notebook_operator.Client.{clusterlab}
use notebook_operator.Client.Tables.{Tables, replace}
use notebook_operator.InstanceLab.Status.{InstanceClock}
use notebook_operator.ClusterLab.Status.{LabClock}
use notebook_operator.ClusterLab.Reconcile.{cluster_lab_finalizer}
use notebook_operator.Tests.Fixtures.{metadata, empty}

abbrev pub quota : ClusterLabQuotaConfig ℕ
quota = record {
  storage = record { limit = 0 };
  compute = record { cpu = record { limit = 4 }; memory = record { limit = 0 } };
  objects = record { pods_limit = pos 5; services_limit = pos 0 };
}

-- A new cluster lab.
abbrev pub lab : ClusterLab ℕ
lab = record {
  metadata = record (metadata (codes "default") (codes "ml")) {
    labels = (codes "lab_week", codes "3") ∷ [];
  };
  spec = record { ttl = codes "1h"; network = record { type = codes "Internal" }; quota = quota };
  status = record {
    phase = [];
    target_namespace = [];
    expires_at = none;
    instance_count = record { total = pos 0; ready = pos 0 };
    quota_usage = record {
      compute = record { cpu_used = 0; memory_used = 0 };
      storage = record { used = 0 };
      objects = record { pods_used = pos 0; services_used = pos 0 };
    };
    conditions = [];
  };
}

abbrev pub leaving_lab : ClusterLab ℕ
leaving_lab = record lab {
  metadata = record lab.metadata {
    finalizers = cluster_lab_finalizer ∷ [];
    deletion_timestamp = some (pos 2000000000);
  };
  status = record lab.status { target_namespace = codes "lab-ml" };
}

abbrev pub lab_key : NamespacedName
lab_key = record { namespace = codes "default"; name = codes "ml" }

abbrev pub only : ClusterLab ℕ → Tables ℕ
only l = replace ℕ clusterlab ((lab_key, l) ∷ []) empty

abbrev pub lab_clock : LabClock
lab_clock = record {
  at_namespace = pos 0;
  at_quota = pos 1;
  at_policy = pos 2;
  at_ready = pos 3;
  at_ttl = pos 5000000000;
  at_until = pos 5000000001;
}

abbrev pub one_hour : Text → Option Duration
one_hour s = some (pos 3600000000000)

abbrev pub readings : InstanceClock
readings = record { at_waiting = pos 0; at_pod_ready = pos 1; at_ready = pos 2 }
