-- ===== src/Kube/Pod.antt =====
-- Pods and their parts (corev1).
use gobehost_operator.Prelude.{ℕ, String, List, Option, StringMap, Bool}
use gobehost_operator.Prelude.Int.{ℤ}
use gobehost_operator.Kube.Meta.{Opaque}

pub data EnvVarSource : Type 0 where
  -- name of the Secret, key in it
  secret_key_ref : String → String → EnvVarSource
  other_source : Opaque → EnvVarSource

pub record EnvVar : Type 0 where
  pub name : String
  pub value : String
  pub value_from : Option EnvVarSource

pub record ContainerPort : Type 0 where
  pub name : String
  pub container_port : ℤ
  pub protocol : String

-- A probe of a TCP port.
pub record Probe : Type 0 where
  pub tcp_port : ℤ
  pub initial_delay_seconds : ℕ
  pub period_seconds : ℕ
  pub failure_threshold : ℕ

pub record VolumeMount : Type 0 where
  pub name : String
  pub mount_path : String
  pub read_only : Bool

pub record SecurityContext : Type 0 where
  pub run_as_non_root : Option Bool
  pub run_as_user : Option ℤ
  pub drop_capabilities : List String
  pub read_only_root_filesystem : Option Bool
  pub seccomp_profile : Option String

pub record PodSecurityContext : Type 0 where
  pub run_as_user : Option ℤ
  pub run_as_group : Option ℤ
  pub fs_group : Option ℤ

pub record Container : Type 0 where
  pub name : String
  pub image : String
  pub image_pull_policy : String
  pub command : List String
  pub args : List String
  pub env : List EnvVar
  pub env_from : List Opaque
  pub ports : List ContainerPort
  pub volume_mounts : List VolumeMount
  pub resources : Opaque
  pub security_context : Option SecurityContext
  pub readiness_probe : Option Probe
  pub liveness_probe : Option Probe

-- A volume that is a persistent volume claim.
pub record Volume : Type 0 where
  pub name : String
  pub claim_name : String
  pub read_only : Bool

pub record PodSpec : Type 0 where
  pub termination_grace_period_seconds : Option ℕ
  pub containers : List Container
  pub restart_policy : String
  pub volumes : List Volume
  pub security_context : Option PodSecurityContext
  pub node_selector : StringMap
  pub affinity : Option Opaque
  pub tolerations : List Opaque

pub record PodTemplate : Type 0 where
  pub labels : StringMap
  pub spec : PodSpec
