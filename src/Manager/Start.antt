-- ===== src/Manager/Start.antt =====
-- `main` of cmd/main.go. An error is what ends the process before `main` returns: every one of them
-- leads to `os.Exit(1)`, that of the configuration within `ctrl.GetConfigOrDie`. The command line is
-- read by package flag, so that the flags are an argument here.
use notebook_operator.Base.{ℕ}
use notebook_operator.Base.Text.{Text, codes}
use notebook_operator.Exec.{Result, ok, err, Exec, ◌>>=◌, ◌>>◌}
use notebook_operator.Manager.Options.{
  Flags, WebhookOptions, ManagerOptions, webhook_server_options, manager_options,
}
use notebook_operator.Manager.Controllers.{
  Controller, cluster_lab_controller, instance_lab_controller,
}

-- What `main` calls of controller-runtime; `complete` is the builder's `Complete`, and `start` comes
-- back when the manager has stopped.
pub record Library (Quantity : Type 0) : Type 1 where
  pub World : Type 0
  pub Scheme : Type 0
  pub Filter : Type 0
  pub Config : Type 0
  pub Server : Type 0
  pub Manager : Type 0
  pub authenticated : Filter
  pub new_server : WebhookOptions → Server
  pub get_config : Exec World Config
  pub new_manager : Config → ManagerOptions Scheme Filter Server → Exec World Manager
  pub complete : Controller Quantity → Manager → Exec World (Unit {0})
  pub add_healthz_check : Text → Manager → Exec World (Unit {0})
  pub add_readyz_check : Text → Manager → Exec World (Unit {0})
  pub start : Manager → Exec World (Unit {0})

module _ {Quantity : Type 0} (K : Library Quantity) where
  unfoldable pub make_manager : K.Scheme → Flags → Exec K.World K.Manager
  make_manager scheme flags = do
    let webhook_server = K.new_server (webhook_server_options flags)
    config ← K.get_config
    K.new_manager config (manager_options flags K.authenticated scheme webhook_server)

  -- Both controllers and both checks.
  unfoldable pub set_up : K.Manager → Exec K.World (Unit {0})
  set_up mgr = do
    K.complete cluster_lab_controller mgr
    K.complete instance_lab_controller mgr
    K.add_healthz_check (codes "healthz") mgr
    K.add_readyz_check (codes "readyz") mgr

  unfoldable pub main : K.Scheme → Flags → Exec K.World (Unit {0})
  main scheme flags = do mgr ← make_manager scheme flags; set_up mgr; K.start mgr

  -- The code with which the process exits.
  abbrev pub exit_code : Result (Unit {0}) → ℕ
  exit_code (ok done) = 0
  exit_code (err e) = 1
