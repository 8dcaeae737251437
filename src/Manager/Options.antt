-- ===== src/Manager/Options.antt =====
-- The flags of cmd/main.go and the options that `main` makes of them, for the servers of
-- controller-runtime and for the manager.
use notebook_operator.Base.{
  Bool, true, false, Option, none, some, List, [], ◌∷◌, ◌++◌, if◌then◌else◌,
}
use notebook_operator.Base.Text.{Text, codes}
use notebook_operator.Utils.Strings.{is_empty}

-- The variables that the flags set.
pub record Flags : Type 0 where
  pub metrics_addr : Text
  pub probe_addr : Text
  pub enable_leader_election : Bool
  pub secure_metrics : Bool
  pub webhook_cert_path : Text
  pub webhook_cert_name : Text
  pub webhook_cert_key : Text
  pub metrics_cert_path : Text
  pub metrics_cert_name : Text
  pub metrics_cert_key : Text
  pub enable_http2 : Bool

-- What they are without arguments.
abbrev pub default_flags : Flags
default_flags = record {
  metrics_addr = codes "0";
  probe_addr = codes ":8081";
  enable_leader_election = false;
  secure_metrics = true;
  webhook_cert_path = [];
  webhook_cert_name = codes "tls.crt";
  webhook_cert_key = codes "tls.key";
  metrics_cert_path = [];
  metrics_cert_name = codes "tls.crt";
  metrics_cert_key = codes "tls.key";
  enable_http2 = false;
}

-- `tls.Config`, of which the program sets this field.
pub record TlsConfig : Type 0 where
  pub next_protos : List Text

abbrev pub TlsOptions : Type 0
TlsOptions = List (TlsConfig → TlsConfig)

-- `webhook.Options`
pub record WebhookOptions : Type 0 where
  pub tls_opts : TlsOptions
  pub cert_dir : Text
  pub cert_name : Text
  pub key_name : Text

-- `metricsserver.Options`
pub record MetricsOptions (Filter : Type 0) : Type 0 where
  pub bind_address : Text
  pub secure_serving : Bool
  pub tls_opts : TlsOptions
  pub filter_provider : Option Filter
  pub cert_dir : Text
  pub cert_name : Text
  pub key_name : Text

-- `ctrl.Options`
pub record ManagerOptions (Scheme Filter Server : Type 0) : Type 0 where
  pub scheme : Scheme
  pub metrics : MetricsOptions Filter
  pub webhook_server : Server
  pub health_probe_bind_address : Text
  pub leader_election : Bool
  pub leader_election_id : Text

-- `disableHTTP2`
abbrev pub disable_http2 : TlsConfig → TlsConfig
disable_http2 c = record c { next_protos = codes "http/1.1" ∷ [] }

module _ (flags : Flags) where
  unfoldable pub tls_opts : TlsOptions
  tls_opts = if flags.enable_http2 then [] else [] ++ disable_http2 ∷ []

  unfoldable pub initial_webhook_options : WebhookOptions
  unfolding tls_opts
  initial_webhook_options = record {
    tls_opts = tls_opts;
    cert_dir = [];
    cert_name = [];
    key_name = [];
  }

  unfoldable pub webhook_server_options : WebhookOptions
  unfolding initial_webhook_options
  webhook_server_options =
      if is_empty flags.webhook_cert_path
      then initial_webhook_options
      else record initial_webhook_options {
        cert_dir = flags.webhook_cert_path;
        cert_name = flags.webhook_cert_name;
        key_name = flags.webhook_cert_key;
      }

  -- `authenticated` stands for `filters.WithAuthenticationAndAuthorization`.
  module _ {Filter : Type 0} (authenticated : Filter) where
    unfoldable pub initial_metrics_options : MetricsOptions Filter
    unfolding tls_opts
    initial_metrics_options = record {
      bind_address = flags.metrics_addr;
      secure_serving = flags.secure_metrics;
      tls_opts = tls_opts;
      filter_provider = none;
      cert_dir = [];
      cert_name = [];
      key_name = [];
    }

    unfoldable pub filtered_metrics_options : MetricsOptions Filter
    unfolding initial_metrics_options
    filtered_metrics_options =
        if flags.secure_metrics
        then record initial_metrics_options { filter_provider = some authenticated }
        else initial_metrics_options

    unfoldable pub metrics_server_options : MetricsOptions Filter
    unfolding filtered_metrics_options
    metrics_server_options =
        if is_empty flags.metrics_cert_path
        then filtered_metrics_options
        else record filtered_metrics_options {
          cert_dir = flags.metrics_cert_path;
          cert_name = flags.metrics_cert_name;
          key_name = flags.metrics_cert_key;
        }

    unfoldable pub manager_options :
        {Scheme Server : Type 0} → Scheme → Server → ManagerOptions Scheme Filter Server
    unfolding metrics_server_options
    manager_options scheme webhook_server = record {
      scheme = scheme;
      metrics = metrics_server_options;
      webhook_server = webhook_server;
      health_probe_bind_address = flags.probe_addr;
      leader_election = flags.enable_leader_election;
      leader_election_id = codes "942fbe98.devops.toiyeuptit.com";
    }
