-- ===== src/ClusterLab/Isolation.antt =====
-- Which traffic the network policy of a cluster lab lets in, by itself.
use notebook_operator.Base.{
  ◌≡◌, ◌⊎◌, ◌↔◌, inl, inr, refl, Option, none, some, List, [], ◌∷◌, All, arith,
}
use notebook_operator.Base.Dict.{Dict, lookup}
use notebook_operator.Kube.Meta.{LabelSelector}
use notebook_operator.Base.Text.{Text, codes}
use notebook_operator.Utils.Strings.{to_lower}
use notebook_operator.Kube.Objects.{NetworkPolicy, NetworkPolicyPeer, NetworkPolicyIngressRule}
use notebook_operator.ClusterLab.Provision.{ingress_rules, lab_policy}

-- Where a connection to a pod of the policy's namespace comes from: a pod of that namespace, with its
-- labels, or anything else.
pub data Origin : Type 0 where
  inside : Dict Text → Origin
  outside : Origin

-- What `networkingv1` and `metav1` say of policies and selectors. A selector without requirements
-- selects a pod that has all its labels.
abbrev pub Selects : LabelSelector → Dict Text → Type 0
Selects selector labels = All (λ label. lookup label.0 labels ≡ some label.1) selector.match_labels

abbrev pub AnyType : List Text → Type 0
AnyType [] = ⊥
AnyType (type ∷ types) = (type ≡ codes "Ingress") ⊎ AnyType types

-- A policy without types is one on ingress.
abbrev pub OnIngress : List Text → Type 0
OnIngress types = (types ≡ []) ⊎ AnyType types

-- The policy restricts what may reach a pod with these labels.
abbrev pub Governs : NetworkPolicy → Dict Text → Type 0
Governs p labels = Selects p.spec.pod_selector labels × OnIngress p.spec.policy_types

-- A pod selector alone selects pods of the policy's own namespace.
abbrev pub SelectsPeer : Option LabelSelector → Origin → Type 0
SelectsPeer none o = ⊥
SelectsPeer (some selector) (inside labels) = Selects selector labels
SelectsPeer (some selector) outside = ⊥

abbrev pub PeerAdmits : NetworkPolicyPeer → Origin → Type 0
PeerAdmits peer o = SelectsPeer peer.pod_selector o

abbrev pub AnyPeer : List NetworkPolicyPeer → Origin → Type 0
AnyPeer [] o = ⊥
AnyPeer (p ∷ ps) o = PeerAdmits p o ⊎ AnyPeer ps o

-- A rule without peers admits every origin.
abbrev pub RuleAdmits : NetworkPolicyIngressRule → Origin → Type 0
RuleAdmits rule o = (rule.from ≡ []) ⊎ AnyPeer rule.from o

abbrev pub AnyRule : List NetworkPolicyIngressRule → Origin → Type 0
AnyRule [] o = ⊥
AnyRule (r ∷ rs) o = RuleAdmits r o ⊎ AnyRule rs o

-- A pod that the policy does not govern is open to all.
abbrev pub Admits : NetworkPolicy → Dict Text → Origin → Type 0
Admits p labels o = (¬ Governs p labels) ⊎ AnyRule p.spec.ingress o

-- The promise of the three network types.
abbrev pub Open : Text → Origin → Type 0
Open type (inside labels) = (to_lower type ≡ codes "internal") ⊎ (to_lower type ≡ codes "external")
Open type outside = to_lower type ≡ codes "external"

rules_lem : (type : Text) (o : Origin) → AnyRule (ingress_rules type) o ↔ Open type o
unfolding ingress_rules codes
rules_lem type (inside labels) = ground arith
rules_lem type outside = ground arith

-- Whatever the network policy was before, after the change it lets a connection to a pod of the
-- namespace in, whatever labels that pod has: from a pod of the namespace exactly if the network type
-- is "internal" or "external", and from anywhere else exactly if it is "external", in any case of
-- letters.
pub lab_policy_lem :
    (type : Text) (p : NetworkPolicy) (labels : Dict Text) (o : Origin)
    → Admits (lab_policy type p) labels o ↔ Open type o
unfolding lab_policy
lab_policy_lem type p labels o = (
  λ admitted. elim admitted [
    | inl ungoverned ↦ absurd (ungoverned (tt, inr (inl refl)))
    | inr rule ↦ (rules_lem type o).0 rule
  ],
  λ open_to. inr ((rules_lem type o).1 open_to),
)
