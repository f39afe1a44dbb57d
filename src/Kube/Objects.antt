-- ===== src/Kube/Objects.antt =====
-- Services, claims, StatefulSets, Jobs and CronJobs (corev1, appsv1, batchv1).
use gobehost_operator.Prelude.{ℕ, String, List, Option, StringMap, Bool}
use gobehost_operator.Prelude.Int.{ℤ}
use gobehost_operator.Kube.Meta.{Opaque, Time, ObjectMeta, ConditionStatus}
use gobehost_operator.Kube.Pod.{PodTemplate}

-- resource.Quantity, in its smallest unit
abbrev pub Quantity : Type 0
Quantity = ℤ

pub record ServicePort : Type 0 where
  pub name : String
  pub port : ℤ
  pub target_port : ℤ
  pub protocol : String

pub record Ingress : Type 0 where
  pub ip : String
  pub hostname : String

pub record Service : Type 0 where
  pub meta : ObjectMeta
  pub type : String
  pub cluster_ip : String
  pub selector : StringMap
  pub ports : List ServicePort
  pub ingress : List Ingress

pub record PersistentVolumeClaim : Type 0 where
  pub meta : ObjectMeta
  pub access_modes : List String
  pub storage_request : Quantity
  pub storage_class_name : Option String
  -- status.phase == "Bound"
  pub is_bound : Bool

pub record StatefulSet : Type 0 where
  pub meta : ObjectMeta
  pub replicas : Option ℕ
  pub selector : StringMap
  pub service_name : String
  pub template : PodTemplate
  pub volume_claim_templates : List PersistentVolumeClaim
  pub update_strategy : Opaque
  pub status_replicas : ℕ
  pub ready_replicas : ℕ

pub data JobConditionType : Type 0 where
  job_complete job_failed : JobConditionType
  other_job_condition : String → JobConditionType

pub record JobCondition : Type 0 where
  pub type : JobConditionType
  pub status : ConditionStatus
  pub message : String

pub record Job : Type 0 where
  pub meta : ObjectMeta
  pub template : PodTemplate
  pub conditions : List JobCondition
  pub completion_time : Option Time

pub record CronJob : Type 0 where
  pub meta : ObjectMeta
  pub schedule : String
  pub concurrency_policy : String
  pub successful_jobs_history_limit : Option ℕ
  pub failed_jobs_history_limit : Option ℕ
  pub job_labels : StringMap
  pub job_template : PodTemplate
