-- ===== src/Manager/Servers.antt =====
-- How the servers of the manager are protected.
use notebook_operator.Base.{◌≡◌, ◌↔◌, true, some, [], ◌∷◌, arith, if◌then◌else◌}
use notebook_operator.Base.Text.{codes}
use notebook_operator.Manager.Options.{
  Flags, TlsConfig, TlsOptions, webhook_server_options, metrics_server_options,
}

-- A server applies its options to its configuration one after another.
abbrev pub configured : TlsOptions → TlsConfig → TlsConfig
configured [] c = c
configured (f ∷ fs) c = configured fs (f c)

-- Whatever the flags say of certificates, the webhook server and the metrics server offer HTTP/1.1
-- only, unless HTTP/2 is enabled, when they offer what they would without options; and the metrics
-- server has the filter that asks for authentication and authorization exactly if it serves over
-- HTTPS, which it does as the flag says.
pub servers_guarded :
    (flags : Flags) {Filter : Type 0} (authenticated : Filter) (c : TlsConfig)
    → let protos = if flags.enable_http2 then c.next_protos else (codes "http/1.1" ∷ []) in
      let metrics = metrics_server_options flags authenticated in
      ((configured (webhook_server_options flags).tls_opts c).next_protos ≡ protos)
      × ((configured metrics.tls_opts c).next_protos ≡ protos)
      × ((metrics.filter_provider ≡ some authenticated) ↔ (metrics.secure_serving ≡ true))
      × (metrics.secure_serving ≡ flags.secure_metrics)
unfolding webhook_server_options metrics_server_options
servers_guarded flags authenticated c =
    (ground arith, ground arith, (λ h. ground arith, λ h. ground arith), ground arith)
