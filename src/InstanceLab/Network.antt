-- ===== src/InstanceLab/Network.antt =====
-- The service and the ingress of an instance: `reconcileServices` and `reconcileIngress` of
-- internal/controller/instancelab_controller.go. A nil pointer is `none`.
use notebook_operator.Base.{Option, none, some, List, [], ◌∷◌, map, if◌then◌else◌}
use notebook_operator.Base.Text.{Text, codes}
use notebook_operator.Base.Dict.{Dict, insert}
use notebook_operator.Utils.Names.{sanitize_name, generate_ingress_host}
use notebook_operator.Utils.Classes.{get_ingress_class_name}
use notebook_operator.Exec.{Exec, pure, ◌>>=◌}
use notebook_operator.Kube.Meta.{ObjectMeta}
use notebook_operator.Kube.Objects.{ServicePort, Service, HttpIngressPath, Ingress}
use notebook_operator.Api.InstanceLab.{InstanceLab, InstanceLabPort}
use notebook_operator.Client.{Client, Machinery, service, ingress}
use notebook_operator.Notebook.Children.{new_metadata}
use notebook_operator.InstanceLab.Objects.{object_name, pod_name, with_instance_labels}

unfoldable pub service_port : InstanceLabPort → ServicePort
service_port p = record {
  name = sanitize_name p.name 15;
  port = p.port;
  target_port = p.target_port;
  protocol = codes "TCP";
}

unfoldable pub exposed_ports : List InstanceLabPort → List InstanceLabPort
exposed_ports [] = []
exposed_ports (p ∷ ports) = let rest = exposed_ports ports in if p.expose then p ∷ rest else rest

-- The loop that ends after its first turn.
unfoldable pub first_path : Text → List InstanceLabPort → List HttpIngressPath
first_path svc_name [] = []
first_path svc_name (p ∷ ports) =
    record {
      path = codes "/";
      path_type = codes "Prefix";
      service_name = svc_name;
      service_port = p.port;
    }
    ∷ []

unfoldable pub ingress_annotations : Dict Text → Dict Text
ingress_annotations annotations =
    insert (codes "nginx.ingress.kubernetes.io/proxy-send-timeout") (codes "3600") (
      insert (codes "nginx.ingress.kubernetes.io/proxy-read-timeout") (codes "3600") (
        insert (codes "nginx.ingress.kubernetes.io/proxy-body-size") (codes "1000m") (
          insert (codes "nginx.ingress.kubernetes.io/ssl-redirect") (codes "true") (
            insert (codes "cert-manager.io/cluster-issuer") (codes "letsencrypt-prod")
              annotations))))

module _ {Quantity : Type 0} (inst : InstanceLab Quantity) where
  unfoldable pub instance_service : Service → Service
  unfolding with_instance_labels service_port
  instance_service svc = record {
    metadata = with_instance_labels inst svc.metadata;
    spec = record {
      selector = (codes "app", pod_name inst) ∷ [];
      type = codes "ClusterIP";
      ports = map service_port inst.spec.ports;
    };
  }

  abbrev pub annotated : ObjectMeta → ObjectMeta
  annotated m = record m { annotations = ingress_annotations m.annotations }

  -- From the environment, the name of the cluster and the name of the service.
  unfoldable pub instance_ingress : (Text → Text) → Text → Text → Ingress → Ingress
  unfolding with_instance_labels first_path exposed_ports
  instance_ingress env cluster_name svc_name ing =
      let host = generate_ingress_host inst.metadata.name cluster_name [] in
      record {
        metadata = annotated (with_instance_labels inst ing.metadata);
        spec = record {
          ingress_class_name = some (get_ingress_class_name env);
          tls =
              record { hosts = host ∷ []; secret_name = object_name inst (codes "-tls-secret") }
              ∷ [];
          rules =
              record { host = host; paths = first_path svc_name (exposed_ports inst.spec.ports) }
              ∷ [];
        };
      }

module _ (M : Machinery) (C : Client M.Quantity) (env : Text → Text)
    (inst : InstanceLab M.Quantity) where
  abbrev pub empty_service : Text → Service
  empty_service target_ns = record {
    metadata = new_metadata (object_name inst (codes "-svc")) target_ns [];
    spec = record { selector = []; type = []; ports = [] };
  }

  abbrev pub empty_ingress : Text → Ingress
  empty_ingress target_ns = record {
    metadata = new_metadata (object_name inst (codes "-ingress")) target_ns [];
    spec = record { ingress_class_name = none; tls = []; rules = [] };
  }

  unfoldable pub services_by : Text → List InstanceLabPort → Exec C.World (Option Service)
  services_by target_ns [] = pure none
  services_by target_ns (p ∷ ports) = do
    svc ← C.create_or_update service (empty_service target_ns) (instance_service inst)
    pure (some svc)

  unfoldable pub reconcile_services : Text → Exec C.World (Option Service)
  unfolding services_by
  reconcile_services target_ns = services_by target_ns inst.spec.ports

  -- From the ports that are exposed.
  unfoldable pub instance_ingress_by :
      Text → Text → Service → List InstanceLabPort → Exec C.World (Option Ingress)
  instance_ingress_by cluster_name target_ns svc [] = pure none
  instance_ingress_by cluster_name target_ns svc (p ∷ ports) = do
    ing ←
        C.create_or_update ingress (empty_ingress target_ns)
          (instance_ingress inst env cluster_name svc.metadata.name)
    pure (some ing)

  unfoldable pub reconcile_instance_ingress :
      Text → Text → Option Service → Exec C.World (Option Ingress)
  unfolding instance_ingress_by
  reconcile_instance_ingress cluster_name target_ns none = pure none
  reconcile_instance_ingress cluster_name target_ns (some svc) =
      instance_ingress_by cluster_name target_ns svc (exposed_ports inst.spec.ports)
