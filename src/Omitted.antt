-- ===== src/Omitted.antt =====
-- Fields that a user leaves out: the defaults of the schemas (api/v1alpha1/*_types.go), those of the
-- webhooks and those that the controllers put in by themselves.
use gobehost_operator.Prelude.{
  ℕ, zero, suc, ◌≡◌, refl, String, List, [], ◌∷◌, Option, none, some, arith, ◌==◌, if◌then◌else◌,
  Bool-cases, inl, inr, Bool, true, false,
}
use gobehost_operator.Prelude.Int.{ℤ, pos, negsuc, eqb_ℤ}
use gobehost_operator.Api.{
  PortSpec, SecuritySpec, GameServer, GracefulShutdownSpec, GameServerBackup,
}
use gobehost_operator.Api.Schema.{
  port_defaults, ports_defaults, network_defaults, security_defaults, server_spec_defaults,
  runtime_defaults, storage_defaults, shutdown_defaults, backup_spec_defaults,
}
use gobehost_operator.Cluster.{Api}
use gobehost_operator.Webhook.{
  default_port, default_ports, default_security, default_game_server, default_common,
}
use gobehost_operator.Reconciler.{
  BackupConfig, build_backup_env, build_cron_job, build_backup_on_delete_job, backup_labels,
  deref_or,
}
use gobehost_operator.Backup.{wants_last_backup}
use gobehost_operator.Fleet.{send_graceful_shutdown, countdown_of, rcon_port_of}

abbrev pub with_schema_defaults : GameServer → GameServer
with_schema_defaults gs = record gs { spec = server_spec_defaults gs.spec }

abbrev default_text : String → String → String
default_text d s = if s == "" then d else s

text_twice : (d s : String) → default_text d (default_text d s) ≡ default_text d s
text_twice d s = elim (Bool-cases (s == "")) [
  | inl e ↦ rw e (if_same (d == "") d)
  | inr e ↦ rw (e, e) refl
]
  where
    if_same : (b : Bool) (x : String) → (if b then x else x) ≡ x
    if_same true x = refl
    if_same false x = refl

ports_agree : (ps : List PortSpec) → default_ports (ports_defaults ps) ≡ default_ports ps
unfolding default_ports ports_defaults default_port port_defaults
ports_agree [] = refl
ports_agree (p ∷ ps) = rw (ports_agree ps, text_twice "TCP" p.protocol) refl

abbrev or_mode : List String → List String
or_mode [] = "ReadWriteOnce" ∷ []
or_mode (m ∷ ms) = m ∷ ms

modes_twice : (modes : List String) → or_mode (or_mode modes) ≡ or_mode modes
modes_twice [] = refl
modes_twice (m ∷ ms) = refl

abbrev or_value {ℓ} : {A : Type ℓ} → A → Option A → Option A
or_value d none = some d
or_value d (some v) = some v

value_twice : (d : Bool) (o : Option Bool) → or_value d (or_value d o) ≡ or_value d o
value_twice d none = refl
value_twice d (some v) = refl

security_agree :
    (s : Option SecuritySpec) → default_security (security_defaults s) ≡ default_security s
unfolding default_security security_defaults
security_agree none = refl
security_agree (some s) = λ i. some (record s {
  run_as_non_root = value_twice true s.run_as_non_root i;
  run_as_user = or_value (pos 1000) s.run_as_user;
  run_as_group = or_value (pos 1000) s.run_as_group;
  fs_group = or_value (pos 1000) s.fs_group;
  drop_all_capabilities = value_twice true s.drop_all_capabilities i;
  seccomp_profile = text_twice "RuntimeDefault" s.seccomp_profile i;
})

-- The webhook leaves of a GameServer to which the schema added its defaults what it leaves of the one
-- that the user wrote.
pub default_game_server-schema :
    (gs : GameServer) → default_game_server (with_schema_defaults gs) ≡ default_game_server gs
unfolding default_game_server default_common server_spec_defaults runtime_defaults storage_defaults
    network_defaults
default_game_server-schema gs = λ i. record gs {
  spec = record (gs.spec) {
    runtime = record (gs.spec.runtime) {
      image_pull_policy = text_twice "IfNotPresent" gs.spec.runtime.image_pull_policy i;
    };
    storage = record (gs.spec.storage) {
      access_modes = modes_twice gs.spec.storage.access_modes i;
    };
    network = record (gs.spec.network) {
      ports = ports_agree gs.spec.network.ports i;
      service_type = text_twice "LoadBalancer" gs.spec.network.service_type i;
    };
    security = security_agree gs.spec.security i;
  };
}

suc_given : (n : ℕ) → eqb_ℤ (pos (suc n)) (pos 0) ≡ false
suc_given n = ground arith

countdown_agrees : (v : ℤ) → countdown_of (if eqb_ℤ v (pos 0) then pos 5 else v) ≡ countdown_of v
countdown_agrees (pos zero) = refl
countdown_agrees (pos (suc n)) = rw (suc_given n) refl
countdown_agrees (negsuc n) = refl

port_agrees : (v : ℤ) → rcon_port_of (if eqb_ℤ v (pos 0) then pos 25575 else v) ≡ rcon_port_of v
port_agrees (pos zero) = refl
port_agrees (pos (suc n)) = rw (suc_given n, suc_given n) refl
port_agrees (negsuc n) = refl

-- The warning of a fleet's update is the same with and without the defaults of the schema.
pub send_graceful_shutdown-schema :
    (api : Api) (config : Option GracefulShutdownSpec) (gs : GameServer)
    → send_graceful_shutdown api (shutdown_defaults config) gs
      ≡ send_graceful_shutdown api config gs
unfolding send_graceful_shutdown shutdown_defaults
send_graceful_shutdown-schema api none gs = refl
send_graceful_shutdown-schema api (some config) gs =
    rw (countdown_agrees config.countdown_seconds, port_agrees config.rcon_port) refl

abbrev pub with_backup_defaults : GameServerBackup → GameServerBackup
with_backup_defaults backup = record backup { spec = backup_spec_defaults backup.spec }

value_given {ℓ} : {A : Type ℓ} (d : A) (o : Option A) → deref_or (or_value d o) d ≡ deref_or o d
value_given d none = refl
value_given d (some v) = refl

env_agrees :
    (backup : GameServerBackup) (cfg : BackupConfig)
    → build_backup_env (with_backup_defaults backup) cfg ≡ build_backup_env backup cfg
unfolding build_backup_env backup_spec_defaults
env_agrees backup cfg =
    rw (value_given (pos 5) backup.spec.retention, value_given true backup.spec.include_metadata)
      refl

wants_agrees : (o : Option Bool) → wants_last_backup (or_value true o) ≡ wants_last_backup o
wants_agrees none = refl
wants_agrees (some b) = refl

-- A backup to which the schema added its defaults has the CronJob, the last Job and the wish for that
-- Job that the backup has which the user wrote.
pub backup-schema :
    (backup : GameServerBackup) (cfg : BackupConfig) (kind name claim : String)
    → (build_cron_job (with_backup_defaults backup) cfg kind name claim
        ≡ build_cron_job backup cfg kind name claim)
      × (build_backup_on_delete_job (with_backup_defaults backup) cfg kind name claim
          ≡ build_backup_on_delete_job backup cfg kind name claim)
      × (wants_last_backup (with_backup_defaults backup).spec.backup_on_delete
          ≡ wants_last_backup backup.spec.backup_on_delete)
unfolding build_cron_job build_backup_on_delete_job backup_spec_defaults backup_labels
backup-schema backup cfg kind name claim = (
  rw (env_agrees backup cfg) refl,
  rw (env_agrees backup cfg) refl,
  wants_agrees backup.spec.backup_on_delete,
)
