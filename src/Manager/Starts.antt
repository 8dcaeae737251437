-- ===== src/Manager/Starts.antt =====
-- What has been set up when `main` starts the manager.
use notebook_operator.Base.{◌≡◌, ◌⊎◌, ◌∙◌, inl, inr, refl, ap, Bool, List, [], ◌∷◌}
use notebook_operator.Base.Text.{Text, codes}
use notebook_operator.Exec.{Failure, ok, err, ◌>>◌, >>=-cases, >>=-eq-ok}
use notebook_operator.Exec.Keeps.{Keeps, keeps_rules}
use notebook_operator.Manager.Options.{Flags, ManagerOptions}
use notebook_operator.Manager.Controllers.{
  Controller, cluster_lab_controller, instance_lab_controller,
}
use notebook_operator.Manager.Start.{Library, make_manager, set_up, main}

pub data Entry (Quantity : Type 0) : Type 0 where
  runs : Controller Quantity → Entry Quantity
  healthz : Text → Entry Quantity
  readyz : Text → Entry Quantity

-- What a manager has been told, the last first, and whether any manager has been started: a new
-- manager has been told nothing, each call that succeeds adds what it says, and only `Start` starts.
pub record Records {Quantity : Type 0} (K : Library Quantity) : Type 0 where
  pub entries : K.Manager → K.World → List (Entry Quantity)
  pub is_started : K.World → Bool
  pub fresh :
      (config : K.Config) (o : ManagerOptions K.Scheme K.Filter K.Server) (mgr : K.Manager)
      (w : K.World)
      → (K.new_manager config o w).0 ≡ ok mgr
      → entries mgr (K.new_manager config o w).1 ≡ []
  pub completed :
      (c : Controller Quantity) (mgr : K.Manager) (w : K.World)
      → (K.complete c mgr w).0 ≡ ok tt
      → entries mgr (K.complete c mgr w).1 ≡ runs c ∷ entries mgr w
  pub checked :
      (name : Text) (mgr : K.Manager) (w : K.World)
      → (K.add_healthz_check name mgr w).0 ≡ ok tt
      → entries mgr (K.add_healthz_check name mgr w).1 ≡ healthz name ∷ entries mgr w
  pub checked_ready :
      (name : Text) (mgr : K.Manager) (w : K.World)
      → (K.add_readyz_check name mgr w).0 ≡ ok tt
      → entries mgr (K.add_readyz_check name mgr w).1 ≡ readyz name ∷ entries mgr w
  pub get_config_quiet : (w : K.World) → is_started (K.get_config w).1 ≡ is_started w
  pub new_manager_quiet :
      (config : K.Config) (o : ManagerOptions K.Scheme K.Filter K.Server) (w : K.World)
      → is_started (K.new_manager config o w).1 ≡ is_started w
  pub complete_quiet :
      (c : Controller Quantity) (mgr : K.Manager) (w : K.World)
      → is_started (K.complete c mgr w).1 ≡ is_started w
  pub healthz_quiet :
      (name : Text) (mgr : K.Manager) (w : K.World)
      → is_started (K.add_healthz_check name mgr w).1 ≡ is_started w
  pub readyz_quiet :
      (name : Text) (mgr : K.Manager) (w : K.World)
      → is_started (K.add_readyz_check name mgr w).1 ≡ is_started w

module _ {Quantity : Type 0} (K : Library Quantity) (R : Records K) where
  -- Both checks and the two controllers, and nothing else.
  abbrev pub all_entries : List (Entry Quantity)
  all_entries =
      readyz (codes "readyz")
      ∷ healthz (codes "healthz")
      ∷ runs instance_lab_controller
      ∷ runs cluster_lab_controller
      ∷ []

  set_up_entries :
      (mgr : K.Manager) (w : K.World)
      → R.entries mgr w ≡ []
      → (set_up K mgr w).0 ≡ ok tt
      → R.entries mgr (set_up K mgr w).1 ≡ all_entries
  unfolding set_up
  set_up_entries mgr w none_yet h =
      let (a, lab, whole) = >>=-eq-ok (K.complete cluster_lab_controller mgr) _ w tt h in
      let (b, inst, whole') =
        >>=-eq-ok (K.complete instance_lab_controller mgr) _ _ tt (rw whole at h) in
      let (c, health, whole'') =
        >>=-eq-ok (K.add_healthz_check (codes "healthz") mgr) _ _ tt (rw (whole, whole') at h) in
      rw (whole, whole', whole'')
        (R.checked_ready (codes "readyz") mgr _ (rw (whole, whole', whole'') at h)
          ∙ ap (λ es. readyz (codes "readyz") ∷ es)
              (R.checked (codes "healthz") mgr _ health
                ∙ ap (λ es. healthz (codes "healthz") ∷ es)
                    (R.completed instance_lab_controller mgr _ inst
                      ∙ ap (λ es. runs instance_lab_controller ∷ es)
                          (R.completed cluster_lab_controller mgr w lab
                            ∙ ap (λ es. runs cluster_lab_controller ∷ es) none_yet))))

  make_manager_entries :
      (scheme : K.Scheme) (flags : Flags) (mgr : K.Manager) (w : K.World)
      → (make_manager K scheme flags w).0 ≡ ok mgr
      → R.entries mgr (make_manager K scheme flags w).1 ≡ []
  unfolding make_manager
  make_manager_entries scheme flags mgr w h =
      let (config, got, whole) = >>=-eq-ok K.get_config _ w mgr h in
      rw whole (R.fresh config _ mgr _ (rw whole at h))

  module _ (w : K.World) where
    -- No manager has been started that had not been started at first.
    abbrev Quiet : K.World → Type 0
    Quiet v = R.is_started v ≡ R.is_started w

    config-Quiet : Keeps Quiet K.get_config
    config-Quiet = record { at = λ v h. R.get_config_quiet v ∙ h }

    new_manager-Quiet :
        (config : K.Config) (o : ManagerOptions K.Scheme K.Filter K.Server)
        → Keeps Quiet (K.new_manager config o)
    new_manager-Quiet config o = record { at = λ v h. R.new_manager_quiet config o v ∙ h }

    complete-Quiet : (c : Controller Quantity) (mgr : K.Manager) → Keeps Quiet (K.complete c mgr)
    complete-Quiet c mgr = record { at = λ v h. R.complete_quiet c mgr v ∙ h }

    healthz-Quiet : (name : Text) (mgr : K.Manager) → Keeps Quiet (K.add_healthz_check name mgr)
    healthz-Quiet name mgr = record { at = λ v h. R.healthz_quiet name mgr v ∙ h }

    readyz-Quiet : (name : Text) (mgr : K.Manager) → Keeps Quiet (K.add_readyz_check name mgr)
    readyz-Quiet name mgr = record { at = λ v h. R.readyz_quiet name mgr v ∙ h }

    make_manager-Quiet :
        (scheme : K.Scheme) (flags : Flags) → Keeps Quiet (make_manager K scheme flags)
    unfolding make_manager
    make_manager-Quiet scheme flags = search (keeps_rules, config-Quiet, new_manager-Quiet)

    set_up-Quiet : (mgr : K.Manager) → Keeps Quiet (set_up K mgr)
    unfolding set_up
    set_up-Quiet mgr = search (keeps_rules, complete-Quiet, healthz-Quiet, readyz-Quiet)

    -- The process has failed with no manager started.
    abbrev pub Failed : K.Scheme → Flags → Type 0
    Failed scheme flags =
        (e : Failure) × ((main K scheme flags w).0 ≡ err e) × Quiet (main K scheme flags w).1

    -- The process ends as a manager ends that it started with everything set up.
    abbrev pub Started : K.Scheme → Flags → Type 0
    Started scheme flags =
        (mgr : K.Manager) × (u : K.World) × (R.entries mgr u ≡ all_entries)
        × Quiet u
        × (main K scheme flags w ≡ K.start mgr u)

    module _ (scheme : K.Scheme) (flags : Flags) where
      after_manager :
          (mgr : K.Manager)
          → (make_manager K scheme flags w).0 ≡ ok mgr
          → main K scheme flags w ≡ (set_up K mgr >> K.start mgr) (make_manager K scheme flags w).1
          → Failed scheme flags ⊎ Started scheme flags
      after_manager mgr made whole =
          let v = (make_manager K scheme flags w).1 in
          let quiet : Quiet v = (make_manager-Quiet scheme flags).at w refl in
          let quiet' : Quiet (set_up K mgr v).1 = (set_up-Quiet mgr).at v quiet in
          elim (>>=-cases (set_up K mgr) (λ a. K.start mgr) v) [
            | inl (e, failed, stop) ↦ inl (
              e,
              ap (λ r. r.0) (whole ∙ stop),
              ap (λ r. R.is_started r.1) (whole ∙ stop) ∙ quiet',
            )
            | inr (a, done, go) ↦ inr (
              mgr,
              (set_up K mgr v).1,
              set_up_entries mgr v (make_manager_entries scheme flags mgr w made) done,
              quiet',
              whole ∙ go,
            )
          ]

      -- `main` either fails with no manager started, or it ends as the manager ends that it has started
      -- with the ClusterLab and the InstanceLab controller and both checks set up, and nothing else:
      -- the NotebookLab controller is not set up. The library is assumed to keep record of what a
      -- manager is told, and to start one in `Start` only.
      pub main_starts : Failed scheme flags ⊎ Started scheme flags
      unfolding main
      main_starts = elim (>>=-cases (make_manager K scheme flags) _ w) [
        | inl (e, failed, stop) ↦ inl (
          e,
          ap (λ r. r.0) stop,
          ap (λ r. R.is_started r.1) stop ∙ (make_manager-Quiet scheme flags).at w refl,
        )
        | inr (mgr, made, go) ↦ after_manager mgr made go
      ]
