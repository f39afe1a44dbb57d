-- ===== src/Tests/Processes.antt =====
-- The theorems on the set-up of the process, at concrete flags.
use gobehost_operator.Prelude.{◌≡◌, refl, Bool, true, false, List, [], ◌∷◌}
use gobehost_operator.Manager.{
  default_flags, TlsConfig, webhook_server_options, metrics_server_options, Step, Exit,
  exit_failure, main,
}
use gobehost_operator.Manager.Boot.{setup_steps, MakesFirst, main-MakesFirst}
use gobehost_operator.Manager.Http.{configure, servers_guarded}

-- A set-up in which the webhooks cannot be registered.
abbrev webhooks_fail : List Step → Step → Bool
webhooks_fail made (Step.register_webhook kind) = true
webhooks_fail made _ = false

main-MakesFirst_example :
    MakesFirst webhooks_fail
      (setup_steps default_flags "")
      []
      (main webhooks_fail default_flags "" [])
main-MakesFirst_example = main-MakesFirst webhooks_fail default_flags ""

abbrev any_tls : TlsConfig
any_tls = record { next_protos = "h2" ∷ "http/1.1" ∷ [] }

servers_guarded_example :
    ((configure (webhook_server_options default_flags).tls_opts any_tls).next_protos
      ≡ "http/1.1" ∷ [])
    × ((configure (metrics_server_options default_flags).tls_opts any_tls).next_protos
        ≡ "http/1.1" ∷ [])
    × ((metrics_server_options default_flags).authenticated
        ≡ (metrics_server_options default_flags).secure_serving)
servers_guarded_example = servers_guarded default_flags any_tls refl

-- Without webhooks the process sets up its controllers and starts.
without_webhooks : (main (λ made step. false) default_flags "false" []).0 ≡ Exit.end_of_main
unfolding main
without_webhooks = refl

-- With them it stops at the first webhook.
stops_at_webhook : (main webhooks_fail default_flags "" []).0 ≡ exit_failure
unfolding main
stops_at_webhook = refl
