-- ===== src/Client/Tables.antt =====
-- Tables of objects, one for each kind.
use notebook_operator.Base.{
  ◌≡◌, refl, ◌≢◌, inl, inr, ◌⊎◌, Bool, true, false, Option, none, some, List, [], ◌∷◌, ite, subst,
  arith, if◌then◌else◌,
}
use notebook_operator.Base.Text.{text_dec}
use notebook_operator.Kube.Meta.{NamespacedName}
use notebook_operator.Client.Defs.{
  Kind, notebooklab, clusterlab, instancelab, pvc, secret, deployment, service, ingress, namespace,
  resource_quota, network_policy, pod, Obj,
}
use notebook_operator.Client.Laws.{Apart}

unfoldable pub key_dec : Discrete NamespacedName
unfolding text_dec
key_dec = hlevel text_dec

abbrev pub same_key : NamespacedName → NamespacedName → Bool
same_key a b = ite (key_dec a b) true false

module _ {V : Type 0} where
  unfoldable pub find : NamespacedName → List (NamespacedName × V) → Option V
  find k [] = none
  find k ((j, v) ∷ t) = if same_key j k then some v else find k t

  unfoldable pub remove : NamespacedName → List (NamespacedName × V) → List (NamespacedName × V)
  remove k [] = []
  remove k ((j, v) ∷ t) = let rest = remove k t in if same_key j k then rest else (j, v) ∷ rest

  pub find-cons_ne :
      (k j : NamespacedName) (v : V) (t : List (NamespacedName × V))
      → k ≢ j
      → find j ((k, v) ∷ t) ≡ find j t
  unfolding find
  find-cons_ne k j v t h = ground arith

  pub find-cons_self :
      (k : NamespacedName) (v : V) (t : List (NamespacedName × V)) → find k ((k, v) ∷ t) ≡ some v
  unfolding find
  find-cons_self k v t = ground arith

  pub find-remove :
      (k j : NamespacedName) (t : List (NamespacedName × V))
      → find j (remove k t) ≡ (if same_key k j then none else find j t)
  unfolding find remove
  find-remove k j [] = ground arith
  find-remove k j ((i, v) ∷ t) = ground (arith, find-remove k j t)

pub Kind-discrete : Discrete Kind
Kind-discrete = hlevel

module _ (Quantity : Type 0) where
  abbrev pub Table : Kind → Type 0
  Table k = List (NamespacedName × Obj Quantity k)

  abbrev pub Tables : Type 0
  Tables = (k : Kind) → Table k

  unfoldable pub replace : (k : Kind) → Table k → Tables → Tables
  replace notebooklab t w notebooklab = t
  replace notebooklab t w j = w j
  replace clusterlab t w clusterlab = t
  replace clusterlab t w j = w j
  replace instancelab t w instancelab = t
  replace instancelab t w j = w j
  replace pvc t w pvc = t
  replace pvc t w j = w j
  replace secret t w secret = t
  replace secret t w j = w j
  replace deployment t w deployment = t
  replace deployment t w j = w j
  replace service t w service = t
  replace service t w j = w j
  replace ingress t w ingress = t
  replace ingress t w j = w j
  replace namespace t w namespace = t
  replace namespace t w j = w j
  replace resource_quota t w resource_quota = t
  replace resource_quota t w j = w j
  replace network_policy t w network_policy = t
  replace network_policy t w j = w j
  replace pod t w pod = t
  replace pod t w j = w j

  pub replace_self : (k : Kind) (t : Table k) (w : Tables) → replace k t w k ≡ t
  unfolding replace
  replace_self notebooklab t w = refl
  replace_self _ t w = refl

  replace_ne : (k j : Kind) (t : Table k) (w : Tables) → k ≢ j → replace k t w j ≡ w j
  unfolding replace
  replace_ne notebooklab notebooklab t w h = absurd (h refl)
  replace_ne notebooklab _ t w h = refl
  replace_ne clusterlab clusterlab t w h = absurd (h refl)
  replace_ne clusterlab _ t w h = refl
  replace_ne instancelab instancelab t w h = absurd (h refl)
  replace_ne instancelab _ t w h = refl
  replace_ne pvc pvc t w h = absurd (h refl)
  replace_ne pvc _ t w h = refl
  replace_ne secret secret t w h = absurd (h refl)
  replace_ne secret _ t w h = refl
  replace_ne deployment deployment t w h = absurd (h refl)
  replace_ne deployment _ t w h = refl
  replace_ne service service t w h = absurd (h refl)
  replace_ne service _ t w h = refl
  replace_ne ingress ingress t w h = absurd (h refl)
  replace_ne ingress _ t w h = refl
  replace_ne namespace namespace t w h = absurd (h refl)
  replace_ne namespace _ t w h = refl
  replace_ne resource_quota resource_quota t w h = absurd (h refl)
  replace_ne resource_quota _ t w h = refl
  replace_ne network_policy network_policy t w h = absurd (h refl)
  replace_ne network_policy _ t w h = refl
  replace_ne pod pod t w h = absurd (h refl)
  replace_ne pod _ t w h = refl

  -- A table that agrees with the old one away from `key` is seen at `key` only.
  pub replace_frame :
      (k j : Kind) (key key' : NamespacedName) (t : Table k) (w : Tables)
      → Apart k key j key'
      → (key ≢ key' → find key' t ≡ find key' (w k))
      → find key' (replace k t w j) ≡ find key' (w j)
  replace_frame k j key key' t w (inl kinds) same = rw (replace_ne k j t w kinds)
  replace_frame k j key key' t w (inr keys) same = elim (Kind-discrete k j) [
    | yes p ↦
        subst (λ i. find key' (replace k t w i) ≡ find key' (w i)) p
          (rw (replace_self k t w) (same keys))
    | no n ↦ rw (replace_ne k j t w n)
  ]

-- Two objects are one, or apart.
pub same_or_Apart :
    (k j : Kind) (key key' : NamespacedName) → ((k ≡ j) × (key ≡ key')) ⊎ Apart k key j key'
same_or_Apart k j key key' = elim (Kind-discrete k j) [
  | yes p ↦ elim (key_dec key key') [ yes q ↦ inl (p, q) | no n ↦ inr (inr n) ]
  | no n ↦ inr (inl n)
]
