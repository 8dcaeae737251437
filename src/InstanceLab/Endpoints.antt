-- ===== src/InstanceLab/Endpoints.antt =====
-- The endpoints that an instance reports, and the route that its ingress has.
use notebook_operator.Base.{
  ◌≡◌, ◌≢◌, ◌⊎◌, inl, inr, Bool, true, false, Option, none, some, List, [], ◌∷◌, ◌++◌, subst,
  if◌then◌else◌, Each,
}
use notebook_operator.Base.Int.{ℤ}
use notebook_operator.Base.Text.{Text, codes}
use notebook_operator.Exec.{Exec, pure, ◌>>◌}
use notebook_operator.InstanceLab.Status.{InstanceClock}
use notebook_operator.Client.{Client, Machinery, instancelab}
use notebook_operator.Utils.Decimal.{decimal}
use notebook_operator.Utils.Names.{generate_ingress_host}
use notebook_operator.Kube.Objects.{Service, Ingress, HttpIngressPath, IngressRule}
use notebook_operator.Kube.Pod.{Pod}
use notebook_operator.Api.InstanceLab.{InstanceLab, InstanceLabPort, InstanceLabAccessEndpoint}
use notebook_operator.InstanceLab.Network.{exposed_ports, first_path, instance_ingress}
use notebook_operator.InstanceLab.Status.{endpoint_at, access_endpoints, host_of}

-- What the endpoint of a port should be, next to a service and an ingress host.
pub record IsEndpoint (svc_name pod_ns : Text) (host : Option Text) (p : InstanceLabPort)
    (e : InstanceLabAccessEndpoint) : Type 0 where
  pub name : e.name ≡ p.name
  pub address :
      e.internal_address
      ≡ codes "http://"
        ++ svc_name
        ++ codes "."
        ++ pod_ns
        ++ codes ".svc.cluster.local:"
        ++ decimal p.port
  pub exposed :
      (h : Text)
      → p.expose ≡ true
      → host ≡ some h
      → (e.protocol ≡ codes "HTTPS") × (e.url ≡ codes "https://" ++ h)
  pub internal : (p.expose ≡ false) ⊎ (host ≡ none) → (e.protocol ≡ codes "TCP") × (e.url ≡ [])

module _ (M : Machinery) (C : Client M.Quantity) (now : InstanceClock)
    (inst : InstanceLab M.Quantity) (p : Pod M.Quantity) (svc : Service)
    (ing : Option Ingress) where
  -- The one update of the status that is made, with an endpoint for each port.
  abbrev pub Reports : Exec C.World (Unit {0}) → List InstanceLabPort → Type 0
  Reports run ports =
      (o : InstanceLab M.Quantity) × (run ≡ (C.update_status instancelab o >> pure tt))
      × (o.metadata ≡ inst.metadata)
      × Each (IsEndpoint svc.metadata.name p.metadata.namespace (host_of ing)) ports
          o.status.access_endpoints

abbrev pub AnyPath : ℤ → List HttpIngressPath → Type 0
AnyPath n [] = ⊥
AnyPath n (p ∷ ps) = (p.service_port ≡ n) ⊎ AnyPath n ps

abbrev pub AnyRule : ℤ → List IngressRule → Type 0
AnyRule n [] = ⊥
AnyRule n (r ∷ rs) = AnyPath n r.paths ⊎ AnyRule n rs

-- Some rule of the ingress routes to the port.
abbrev pub Routed : Ingress → ℤ → Type 0
Routed ing n = AnyRule n ing.spec.rules

module _ {Quantity : Type 0} (inst : InstanceLab Quantity) (env : Text → Text)
    (cluster_name svc_name : Text) (ing : Ingress) where
  -- The ingress as the run leaves it.
  abbrev gate : Ingress
  gate = instance_ingress inst env cluster_name svc_name ing

  only_first :
      (p : InstanceLabPort) (ports : List InstanceLabPort) (n : ℤ)
      → p.port ≢ n
      → ¬ AnyPath n (first_path svc_name (p ∷ ports))
  unfolding first_path
  only_first p ports n ne (inl same) = ne same
  only_first p ports n ne (inr nothing) = nothing

  -- An exposed port whose number is another than that of the first exposed port has no route in the
  -- ingress of the instance, and still its endpoint is an HTTPS URL with the host of that ingress.
  pub exposed_port_unrouted :
      (p q : InstanceLabPort) (ports : List InstanceLabPort) (internal_addr : Text)
      → exposed_ports inst.spec.ports ≡ p ∷ ports
      → q.expose ≡ true
      → p.port ≢ q.port
      → (¬ Routed gate q.port)
        × ((endpoint_at internal_addr q (if q.expose then host_of (some gate) else none)).url
            ≡ codes "https://" ++ generate_ingress_host inst.metadata.name cluster_name [])
  unfolding instance_ingress endpoint_at
  exposed_port_unrouted p q ports internal_addr e hq ne = (
    λ routed. elim routed [
      | inl found ↦
          only_first p ports q.port ne
            (subst (λ ps. AnyPath q.port (first_path svc_name ps)) e found)
      | inr nothing ↦ nothing
    ],
    rw hq,
  )
