-- ===== src/Kube/Meta.antt =====
-- Object metadata and status conditions (metav1).
use gobehost_operator.Prelude.{ℕ, String, List, [], Option, none, StringMap}

-- metav1.Time, in seconds
abbrev pub Time : Type 0
Time = ℕ

-- A value of the API that the source copies and never looks into.
abbrev pub Opaque : Type 0
Opaque = String

pub record Key : Type 0 where
  pub namespace : String
  pub name : String

pub record ObjectMeta : Type 0 where
  pub name : String
  pub namespace : String
  pub labels : StringMap
  pub annotations : StringMap
  pub finalizers : List String
  pub owner_references : List Opaque
  pub generation : ℕ
  pub creation_timestamp : Time
  pub deletion_timestamp : Option Time

-- metav1.ObjectMeta{}
abbrev pub no_meta : ObjectMeta
no_meta = record {
  name = "";
  namespace = "";
  labels = [];
  annotations = [];
  finalizers = [];
  owner_references = [];
  generation = 0;
  creation_timestamp = 0;
  deletion_timestamp = none;
}

abbrev pub key_of : ObjectMeta → Key
key_of m = record { namespace = m.namespace; name = m.name }

pub data ConditionStatus : Type 0 where
  condition_true condition_false condition_unknown : ConditionStatus

pub record Condition : Type 0 where
  pub type : String
  pub status : ConditionStatus
  pub reason : String
  pub message : String
  pub observed_generation : ℕ
  pub last_transition_time : Time
