-- ===== src/Manager/Registered.antt =====
-- Which types the scheme knows that `main` hands to the manager.
use notebook_operator.Base.{◌≡◌, ◌∙◌, sym, subst, List, [], ◌∷◌, All}
use notebook_operator.Base.Text.{Text, codes}
use notebook_operator.Exec.{Result, ok, err}
use notebook_operator.Manager.Scheme.{
  GroupVersion, group_version, SchemeLibrary, and_then, cluster_lab_types, instance_lab_types,
  notebook_lab_types, scheme_builder, init_scheme,
}

module _ (K : SchemeLibrary) where
  -- A scheme knows the types that it is told, and forgets none; the functions of a builder are applied
  -- one after another until one fails.
  pub record Registers : Type 1 where
    pub Knows : GroupVersion → Text → K.Scheme → Type 0
    pub told :
        (v : GroupVersion) (names : List Text) (s : K.Scheme)
        → All (λ name. Knows v name (K.add_known_types v names s)) names
    pub kept :
        (v u : GroupVersion) (name : Text) (names : List Text) (s : K.Scheme)
        → Knows v name s
        → Knows v name (K.add_known_types u names s)
    pub applied_none : (s : K.Scheme) → K.apply_all [] s ≡ ok s
    pub applied :
        (f : K.Scheme → Result K.Scheme) (fs : List (K.Scheme → Result K.Scheme)) (s : K.Scheme)
        → K.apply_all (f ∷ fs) s ≡ and_then (f s) (K.apply_all fs)

  module _ (R : Registers) where
    abbrev with_clusters : K.Scheme → K.Scheme
    with_clusters s =
        K.add_known_types group_version cluster_lab_types (K.add_to_group_version group_version s)

    abbrev with_instances : K.Scheme → K.Scheme
    with_instances s = K.add_known_types group_version instance_lab_types (with_clusters s)

    -- The scheme that the builder makes.
    abbrev registered : K.Scheme → K.Scheme
    registered s = K.add_known_types group_version notebook_lab_types (with_instances s)

    built : (s : K.Scheme) → K.apply_all (scheme_builder K) s ≡ ok (registered s)
    unfolding scheme_builder
    built s =
        R.applied _ _ s ∙ R.applied _ _ _ ∙ R.applied _ _ _ ∙ R.applied _ _ _ ∙ R.applied_none _

    later :
        (name : Text) (names : List Text) (s : K.Scheme)
        → R.Knows group_version name s
        → R.Knows group_version name (K.add_known_types group_version names s)
    later name names s = R.kept group_version group_version name names s

    -- lab.ngtukien.id.vn/v1alpha1, with the three kinds and their lists.
    abbrev pub lab_group : GroupVersion
    lab_group = record { group = codes "lab.ngtukien.id.vn"; version = codes "v1alpha1" }

    abbrev pub KnowsAll : K.Scheme → Type 0
    KnowsAll s =
        R.Knows lab_group (codes "ClusterLab") s
        × R.Knows lab_group (codes "ClusterLabList") s
        × R.Knows lab_group (codes "InstanceLab") s
        × R.Knows lab_group (codes "InstanceLabList") s
        × R.Knows lab_group (codes "NotebookLab") s
        × R.Knows lab_group (codes "NotebookLabList") s

    registered_knows : (s : K.Scheme) → KnowsAll (registered s)
    registered_knows s =
        let (a, (b, _)) =
          R.told group_version cluster_lab_types (K.add_to_group_version group_version s) in
        let (c, (d, _)) = R.told group_version instance_lab_types (with_clusters s) in
        let (e, (f, _)) = R.told group_version notebook_lab_types (with_instances s) in
        (
          later _ _ _ (later _ _ _ a),
          later _ _ _ (later _ _ _ b),
          later _ _ _ c,
          later _ _ _ d,
          e,
          f,
        )

    after_client_go :
        (r : Result K.Scheme) (s : K.Scheme)
        → and_then r (K.apply_all (scheme_builder K)) ≡ ok s
        → KnowsAll s
    after_client_go (ok s0) s h =
        let e : ok (registered s0) ≡ ok s = sym (built s0) ∙ h in
        subst KnowsAll (cc) (registered_knows s0)
    after_client_go (err e) s h = cc

    -- If `init` returns, the scheme knows the three kinds of the group and their lists, under the group
    -- and version of the package. The library is assumed to apply the functions of a builder in turn,
    -- and a scheme to know what it is told and to forget nothing.
    pub init_scheme_knows : (s : K.Scheme) → init_scheme K ≡ ok s → KnowsAll s
    unfolding init_scheme
    init_scheme_knows s h = after_client_go (K.add_client_go K.new_scheme) s h
