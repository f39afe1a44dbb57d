-- ===== src/Manager/Http.antt =====
-- The options of the two servers under every choice of flags.
use gobehost_operator.Prelude.{◌≡◌, refl, false, List, [], ◌∷◌, inl, inr, ◌==◌, Bool-cases}
use gobehost_operator.Manager.Options.{
  Flags, TlsConfig, webhook_server_options, metrics_server_options,
}

-- The options in their order, as the servers apply them.
abbrev pub configure : List (TlsConfig → TlsConfig) → TlsConfig → TlsConfig
configure [] c = c
configure (f ∷ fs) c = configure fs (f c)

-- Unless HTTP/2 is asked for, both servers offer HTTP/1.1 alone, and the metrics server asks for
-- credentials exactly where it is secure.
pub servers_guarded :
    (flags : Flags) (c : TlsConfig)
    → flags.enable_http2 ≡ false
    → ((configure (webhook_server_options flags).tls_opts c).next_protos ≡ "http/1.1" ∷ [])
      × ((configure (metrics_server_options flags).tls_opts c).next_protos ≡ "http/1.1" ∷ [])
      × ((metrics_server_options flags).authenticated
          ≡ (metrics_server_options flags).secure_serving)
unfolding webhook_server_options metrics_server_options
servers_guarded flags c h = (http1_webhook, http1_metrics, protected)
  where
    http1_webhook :
        (configure (webhook_server_options flags).tls_opts c).next_protos ≡ "http/1.1" ∷ []
    http1_webhook = elim (Bool-cases (flags.webhook_cert_path == "")) [
      | inl w ↦ rw (w, h) refl
      | inr w ↦ rw (w, h) refl
    ]

    http1_metrics :
        (configure (metrics_server_options flags).tls_opts c).next_protos ≡ "http/1.1" ∷ []
    http1_metrics = elim (Bool-cases (flags.metrics_cert_path == "")) [
      | inl m ↦ elim (Bool-cases flags.secure_metrics) [
        | inl s ↦ rw (m, s, h) refl
        | inr s ↦ rw (m, s, h) refl
      ]
      | inr m ↦ elim (Bool-cases flags.secure_metrics) [
        | inl s ↦ rw (m, s, h) refl
        | inr s ↦ rw (m, s, h) refl
      ]
    ]

    protected :
        (metrics_server_options flags).authenticated ≡ (metrics_server_options flags).secure_serving
    protected = elim (Bool-cases (flags.metrics_cert_path == "")) [
      | inl m ↦ elim (Bool-cases flags.secure_metrics) [
        | inl s ↦ rw (m, s) refl
        | inr s ↦ rw (m, s) refl
      ]
      | inr m ↦ elim (Bool-cases flags.secure_metrics) [
        | inl s ↦ rw (m, s) refl
        | inr s ↦ rw (m, s) refl
      ]
    ]
