-- ===== src/InstanceLab/Converges.antt =====
-- What a second reconciliation makes of the objects of an instance: nothing new.
use notebook_operator.Base.{
  ℕ, ◌≢◌, arith, ◌∙◌, ◌≡◌, refl, ap, Bool, true, false, List, [], ◌∷◌, if◌then◌else◌,
}
use notebook_operator.Base.Int.{pos, negsuc, eqb_ℤ}
use notebook_operator.Base.Text.{Text, codes, text_dec}
use notebook_operator.Base.Dict.{Dict, lookup, insert}
use notebook_operator.Base.Writes.{HasDistinctKeys, write_all_twice}
use notebook_operator.Kube.Meta.{Time, zero_time, ObjectMeta}
use notebook_operator.Kube.Objects.{PersistentVolumeClaim, Service, Ingress}
use notebook_operator.Kube.Pod.{Pod, PodSpec}
use notebook_operator.Api.InstanceLab.{InstanceLab}
use notebook_operator.Client.{Machinery}
use notebook_operator.ClusterLab.Provision.{
  label_managed_by, label_value_managed_by, label_cluster_lab,
}
use notebook_operator.Kube.Pod.{Volume, VolumeMount}
use notebook_operator.InstanceLab.Objects.{
  label_instance_lab, pod_name, instance_labels, with_instance_labels, instance_claim,
}
use notebook_operator.InstanceLab.Pod.{sysbox_pod, sysbox_spec, sysbox_settings, sysbox_container}
use notebook_operator.InstanceLab.Network.{ingress_annotations, instance_service, instance_ingress}

-- The annotations of every ingress.
abbrev annotation_entries : Dict Text
annotation_entries =
    (codes "nginx.ingress.kubernetes.io/proxy-send-timeout", codes "3600")
    ∷ (codes "nginx.ingress.kubernetes.io/proxy-read-timeout", codes "3600")
    ∷ (codes "nginx.ingress.kubernetes.io/proxy-body-size", codes "1000m")
    ∷ (codes "nginx.ingress.kubernetes.io/ssl-redirect", codes "true")
    ∷ (codes "cert-manager.io/cluster-issuer", codes "letsencrypt-prod")
    ∷ []

annotations_distinct : HasDistinctKeys annotation_entries
unfolding lookup codes text_dec
annotations_distinct = (refl, (refl, (refl, (refl, (refl, tt)))))

ingress_annotations_twice :
    (annotations : Dict Text)
    → ingress_annotations (ingress_annotations annotations) ≡ ingress_annotations annotations
unfolding ingress_annotations
ingress_annotations_twice annotations =
    write_all_twice annotation_entries annotations annotations_distinct

if_twice :
    {A : Type 0} (b : Bool) (x y : A)
    → (if b then (if b then x else y) else y) ≡ (if b then x else y)
if_twice true x y = refl
if_twice false x y = refl

module _ {Quantity : Type 0} (inst : InstanceLab Quantity) where
  abbrev label_entries : Dict Text
  label_entries =
      (label_instance_lab, inst.metadata.name)
      ∷ (label_cluster_lab, inst.spec.cluster_lab_ref)
      ∷ (label_managed_by, label_value_managed_by)
      ∷ []

  labels_distinct : HasDistinctKeys label_entries
  unfolding lookup codes text_dec
  labels_distinct = (refl, (refl, (refl, tt)))

  instance_labels_twice :
      (labels : Dict Text)
      → instance_labels inst (instance_labels inst labels) ≡ instance_labels inst labels
  unfolding instance_labels
  instance_labels_twice labels = write_all_twice label_entries labels labels_distinct

  -- The labels of the pod.
  pod_labels_distinct : HasDistinctKeys ((codes "app", pod_name inst) ∷ label_entries)
  unfolding lookup codes text_dec
  pod_labels_distinct = (refl, labels_distinct)

  pod_labels_twice :
      (labels : Dict Text)
      → insert (codes "app") (pod_name inst) (
          instance_labels inst (insert (codes "app") (pod_name inst) (instance_labels inst labels)))
        ≡ insert (codes "app") (pod_name inst) (instance_labels inst labels)
  unfolding instance_labels
  pod_labels_twice labels =
      write_all_twice ((codes "app", pod_name inst) ∷ label_entries) labels pod_labels_distinct

  metadata_twice :
      (m : ObjectMeta)
      → with_instance_labels inst (with_instance_labels inst m) ≡ with_instance_labels inst m
  unfolding with_instance_labels
  metadata_twice m = ap (λ l. record m { labels = l }) (instance_labels_twice m.labels)

  claim_twice :
      (claim : PersistentVolumeClaim Quantity)
      → instance_claim inst (instance_claim inst claim) ≡ instance_claim inst claim
  unfolding instance_claim
  claim_twice claim = rw metadata_twice

  service_twice :
      (svc : Service)
      → instance_service inst (instance_service inst svc) ≡ instance_service inst svc
  unfolding instance_service
  service_twice svc = rw metadata_twice

  ingress_twice :
      (env : Text → Text) (cluster_name svc_name : Text) (ing : Ingress)
      → instance_ingress inst env cluster_name svc_name
          (instance_ingress inst env cluster_name svc_name ing)
        ≡ instance_ingress inst env cluster_name svc_name ing
  unfolding instance_ingress with_instance_labels
  ingress_twice env cluster_name svc_name ing =
      rw (instance_labels_twice, ingress_annotations_twice)

not_zero : (t : Time) (n : ℕ) → t ≢ negsuc n → eqb_ℤ t (negsuc n) ≡ false
not_zero (pos k) n h = ground arith
not_zero (negsuc k) n h = ground arith

module _ (M : Machinery) (inst : InstanceLab M.Quantity) where
  selector_twice :
      (d : Dict Text)
      → insert
          (codes "sysbox-install")
          (codes "yes")
          (insert (codes "sysbox-install") (codes "yes") d)
        ≡ insert (codes "sysbox-install") (codes "yes") d
  unfolding lookup
  selector_twice d = write_all_twice ((codes "sysbox-install", codes "yes") ∷ []) d (refl, tt)

  settings_twice :
      (spec : PodSpec M.Quantity)
      → sysbox_settings M inst (sysbox_settings M inst spec) ≡ sysbox_settings M inst spec
  unfolding sysbox_settings
  settings_twice spec = rw (selector_twice, if_twice, if_twice)

  -- What reaches every pod is already there on a pod that has been set.
  spec_settled :
      (volumes : List (Volume M.Quantity)) (mounts : List VolumeMount) (is_new : Bool)
      (spec : PodSpec M.Quantity)
      → sysbox_settings M inst (sysbox_spec M inst volumes mounts is_new spec)
        ≡ sysbox_spec M inst volumes mounts is_new spec
  unfolding sysbox_spec sysbox_settings
  spec_settled volumes mounts true spec =
      ap
        (λ (s : PodSpec M.Quantity). record s {
          volumes = volumes;
          containers = sysbox_container M inst mounts ∷ [];
        })
        (settings_twice spec)
  spec_settled volumes mounts false spec = settings_twice spec

  spec_kept :
      (later_volumes : List (Volume M.Quantity)) (later : List VolumeMount)
      (spec : PodSpec M.Quantity)
      → sysbox_spec M inst later_volumes later false spec ≡ sysbox_settings M inst spec
  unfolding sysbox_spec
  spec_kept later_volumes later spec = refl

  -- The pod with the creation timestamp that the server gives it.
  abbrev pub stamped : Time → Pod M.Quantity → Pod M.Quantity
  stamped t p = record p { metadata = record p.metadata { creation_timestamp = t } }

  pod_settled :
      (volumes later_volumes : List (Volume M.Quantity)) (mounts later : List VolumeMount)
      (t : Time) (p : Pod M.Quantity)
      → t ≢ zero_time
      → sysbox_pod M inst later_volumes later (stamped t (sysbox_pod M inst volumes mounts p))
        ≡ stamped t (sysbox_pod M inst volumes mounts p)
  unfolding sysbox_pod with_instance_labels
  pod_settled volumes later_volumes mounts later t p h =
      let is_new = eqb_ℤ p.metadata.creation_timestamp zero_time in
      let once : PodSpec M.Quantity = sysbox_spec M inst volumes mounts is_new p.spec in
      rw (pod_labels_twice, not_zero t _ h)
        (ap
          (λ (spec : PodSpec M.Quantity). record (stamped t (sysbox_pod M inst volumes mounts p)) {
            spec = spec;
          })
          (spec_kept later_volumes later once ∙ spec_settled volumes mounts is_new p.spec))

  -- What the functions given to `CreateOrUpdate` make of the claim, the pod, the service and the
  -- ingress of an instance they leave as it is when they are applied again, whatever labels,
  -- annotations and node selector the object had. For the pod this holds once the server has given it
  -- a creation time, also if Go walks the map of mounts in another order the second time.
  pub instance_objects_converge :
      (volumes later_volumes : List (Volume M.Quantity)) (mounts later : List VolumeMount)
      (t : Time) (env : Text → Text) (cluster_name svc_name : Text)
      (claim : PersistentVolumeClaim M.Quantity) (p : Pod M.Quantity) (svc : Service)
      (ing : Ingress)
      → t ≢ zero_time
      → (instance_claim inst (instance_claim inst claim) ≡ instance_claim inst claim)
        × (sysbox_pod M inst later_volumes later (stamped t (sysbox_pod M inst volumes mounts p))
            ≡ stamped t (sysbox_pod M inst volumes mounts p))
        × (instance_service inst (instance_service inst svc) ≡ instance_service inst svc)
        × (instance_ingress inst env cluster_name svc_name
              (instance_ingress inst env cluster_name svc_name ing)
            ≡ instance_ingress inst env cluster_name svc_name ing)
  instance_objects_converge volumes later_volumes mounts later t env cluster_name svc_name claim p
        svc ing h =
      (
        claim_twice inst claim,
        pod_settled volumes later_volumes mounts later t p h,
        service_twice inst svc,
        ingress_twice inst env cluster_name svc_name ing,
      )
