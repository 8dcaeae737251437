-- ===== src/Notebook/Networking.antt =====
-- `reconcileNetworking` of internal/controller/notebooklab_controller.go.
use notebook_operator.Base.{none, [], ◌∷◌, ◌++◌, if◌then◌else◌}
use notebook_operator.Base.Int.{pos}
use notebook_operator.Base.Text.{codes}
use notebook_operator.Exec.{
  Result, ok, err, Exec, is_not_found, pure, fail, reads, attempt, ◌>>=◌, ◌>>◌,
}
use notebook_operator.Kube.Objects.{Service, Ingress}
use notebook_operator.Api.NotebookLab.{NotebookLab}
use notebook_operator.Client.{Client, Machinery, service, ingress}
use notebook_operator.Notebook.Children.{child_key, child_metadata, owned}

module _ {Quantity : Type 0} where
  unfoldable pub new_service : NotebookLab Quantity → Service
  new_service notebook = record {
    metadata = child_metadata notebook (codes "-svc");
    spec = record {
      selector = (codes "app", notebook.metadata.name) ∷ [];
      type = [];
      ports =
          record { name = codes "http"; port = pos 8888; target_port = pos 0; protocol = [] } ∷ [];
    };
  }

  unfoldable pub new_ingress : NotebookLab Quantity → Ingress
  new_ingress notebook =
      let svc_name = notebook.metadata.name ++ codes "-svc" in
      record {
        metadata = record (child_metadata notebook (codes "-ingress")) {
          annotations =
              (codes "nginx.ingress.kubernetes.io/proxy-read-timeout", codes "3600")
              ∷ (codes "nginx.ingress.kubernetes.io/proxy-send-timeout", codes "3600")
              ∷ (codes "nginx.ingress.kubernetes.io/websocket-services", svc_name)
              ∷ [];
        };
        spec = record {
          ingress_class_name = none;
          tls = [];
          rules =
              record {
                host = notebook.metadata.name ++ codes ".local";
                paths =
                    record {
                      path = codes "/";
                      path_type = codes "Prefix";
                      service_name = svc_name;
                      service_port = pos 8888;
                    }
                    ∷ [];
              }
              ∷ [];
        };
      }

module _ (M : Machinery) (C : Client M.Quantity) (notebook : NotebookLab M.Quantity) where
  unfoldable pub create_service : Exec C.World (Unit {0})
  create_service = do
    m ← owned M C notebook (new_service notebook).metadata
    C.create service (record (new_service notebook) { metadata = m })
    pure tt

  unfoldable pub service_by : Result Service → Exec C.World (Unit {0})
  service_by (ok svc) = pure tt
  service_by (err e) = if is_not_found e then create_service else fail e

  unfoldable pub create_ingress : Exec C.World (Unit {0})
  create_ingress = do
    m ← owned M C notebook (new_ingress notebook).metadata
    C.create ingress (record (new_ingress notebook) { metadata = m })
    pure tt

  unfoldable pub ingress_by : Result Ingress → Exec C.World (Unit {0})
  ingress_by (ok ing) = pure tt
  ingress_by (err e) = if is_not_found e then create_ingress else fail e

  unfoldable pub reconcile_service : Exec C.World (Unit {0})
  reconcile_service = do
    existing ← attempt (reads (C.get service (child_key notebook (codes "-svc"))))
    service_by existing

  unfoldable pub reconcile_ingress : Exec C.World (Unit {0})
  reconcile_ingress = do
    existing ← attempt (reads (C.get ingress (child_key notebook (codes "-ingress"))))
    ingress_by existing

  unfoldable pub reconcile_networking : Exec C.World (Unit {0})
  reconcile_networking = do reconcile_service; reconcile_ingress
