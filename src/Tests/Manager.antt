-- ===== src/Tests/Manager.antt =====
-- The manager with a library that keeps a list of the calls, and its servers.
use notebook_operator.Base.{
  ◌≡◌, ◌↔◌, ◌⊎◌, refl, Bool, true, false, some, List, [], ◌∷◌, if◌then◌else◌, arith,
}
use notebook_operator.Base.Int.{pos}
use notebook_operator.Base.Text.{codes}
use notebook_operator.Exec.{ok}
use notebook_operator.Kube.Meta.{NamespacedName}
use notebook_operator.Client.{namespace}
use notebook_operator.Client.Memory.Lawful.{memory-IsLawful}
use notebook_operator.Notebook.Reconcile.{reconcile}
use notebook_operator.Manager.Options.{
  default_flags, TlsConfig, webhook_server_options, metrics_server_options,
}
use notebook_operator.Manager.Controllers.{Watches, notebook_lab_controller}
use notebook_operator.Manager.Start.{Library}
use notebook_operator.Manager.Servers.{configured, servers_guarded}
use notebook_operator.Manager.Starts.{
  Entry, runs, healthz, readyz, Records, Failed, Started, main_starts,
}
use notebook_operator.System.Notebooks.{notebook_writes_watched}
use notebook_operator.Tests.Fixtures.{machinery, client, notebook_key, cluster, clock_after}

abbrev http2_offered : TlsConfig
http2_offered = record { next_protos = codes "h2" ∷ codes "http/1.1" ∷ [] }

servers_guarded_example :
    let protos =
      if default_flags.enable_http2 then http2_offered.next_protos else (codes "http/1.1" ∷ []) in
    let metrics = metrics_server_options default_flags (codes "authn") in
    ((configured (webhook_server_options default_flags).tls_opts http2_offered).next_protos
      ≡ protos)
    × ((configured metrics.tls_opts http2_offered).next_protos ≡ protos)
    × ((metrics.filter_provider ≡ some (codes "authn")) ↔ (metrics.secure_serving ≡ true))
    × (metrics.secure_serving ≡ default_flags.secure_metrics)
servers_guarded_example = servers_guarded default_flags (codes "authn") http2_offered

-- What has been told to the one manager, and whether it was started.
pub record Log : Type 0 where
  pub told : List (Entry (Unit {0}))
  pub is_started : Bool

abbrev tell : Entry (Unit {0}) → Log → Log
tell e w = record w { told = e ∷ w.told }

abbrev library : Library (Unit {0})
library = record {
  World = Log;
  Scheme = Unit {0};
  Filter = Unit {0};
  Config = Unit {0};
  Server = Unit {0};
  Manager = Unit {0};
  authenticated = tt;
  new_server = λ o. tt;
  get_config = λ w. (ok tt, w);
  new_manager = λ config o w. (ok tt, record w { told = [] });
  complete = λ c mgr w. (ok tt, tell (runs c) w);
  add_healthz_check = λ name mgr w. (ok tt, tell (healthz name) w);
  add_readyz_check = λ name mgr w. (ok tt, tell (readyz name) w);
  start = λ mgr w. (ok tt, record w { is_started = true });
}

library-Records : Records library
library-Records = record {
  entries = λ mgr w. w.told;
  is_started = λ w. w.is_started;
  fresh = λ config o mgr w h. refl;
  completed = λ c mgr w h. refl;
  checked = λ name mgr w h. refl;
  checked_ready = λ name mgr w h. refl;
  get_config_quiet = λ w. refl;
  new_manager_quiet = λ config o w. refl;
  complete_quiet = λ c mgr w. refl;
  healthz_quiet = λ name mgr w. refl;
  readyz_quiet = λ name mgr w. refl;
}

abbrev first_log : Log
first_log = record { told = []; is_started = false }

main_starts_example :
    Failed library library-Records first_log tt default_flags
    ⊎ Started library library-Records first_log tt default_flags
main_starts_example = main_starts library library-Records first_log tt default_flags

namespace_unwatched :
    ¬ Watches (notebook_lab_controller {Quantity = machinery.Quantity}).watched namespace
namespace_unwatched h = ground arith

abbrev namespace_key : NamespacedName
namespace_key = record { namespace = []; name = codes "lab" }

notebook_writes_watched_example :
    client.get namespace namespace_key
      (reconcile machinery client (clock_after 1) notebook_key (cluster (pos 0))).1
    ≡ client.get namespace namespace_key (cluster (pos 0))
notebook_writes_watched_example =
    notebook_writes_watched machinery client (memory-IsLawful machinery.Quantity) namespace
      namespace_key (clock_after 1) notebook_key (cluster (pos 0)) namespace_unwatched
