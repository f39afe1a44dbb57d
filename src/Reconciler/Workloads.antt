-- ===== src/Reconciler/Workloads.antt =====
-- internal/reconciler/pvc.go and statefulset.go
use gobehost_operator.Prelude.{
  Bool, true, false, not, String, ◌<>◌, List, [], ◌∷◌, ◌++◌, Option, none, some, ◌==◌,
  if◌then◌else◌,
}
use gobehost_operator.Kube.{
  no_meta, ContainerPort, SecurityContext, PodSecurityContext, Container, PodSpec,
  PersistentVolumeClaim, StatefulSet,
}
use gobehost_operator.Api.{PortSpec, SchedulingSpec, SecuritySpec, GameServer}
use gobehost_operator.Adapter.{GameAdapter, Registry, get_adapter}
use gobehost_operator.Reconciler.Services.{game_server_labels}

abbrev pub or_read_write_once : List String → List String
or_read_write_once [] = "ReadWriteOnce" ∷ []
or_read_write_once (m ∷ ms) = m ∷ ms

unfoldable pub build_pvc : GameServer → PersistentVolumeClaim
unfolding game_server_labels
build_pvc gs = record {
  meta = record no_meta {
    name = gs.meta.name <> "-data";
    namespace = gs.meta.namespace;
    labels = game_server_labels gs;
  };
  access_modes = or_read_write_once gs.spec.storage.access_modes;
  storage_request = gs.spec.storage.size;
  storage_class_name = gs.spec.storage.storage_class;
  is_bound = false;
}

-- &SecuritySpec{}
abbrev empty_security : SecuritySpec
empty_security = record {
  run_as_non_root = none;
  run_as_user = none;
  run_as_group = none;
  fs_group = none;
  read_only_root_filesystem = none;
  drop_all_capabilities = none;
  seccomp_profile = "";
}

abbrev security_or_empty : Option SecuritySpec → SecuritySpec
security_or_empty none = empty_security
security_or_empty (some sec) = sec

-- `sec.DropAllCapabilities == nil || *sec.DropAllCapabilities`
abbrev pub drops_all : Option Bool → Bool
drops_all none = true
drops_all (some b) = b

unfoldable pub build_security_context : GameServer → SecurityContext
build_security_context gs =
    let sec = security_or_empty gs.spec.security in
    record {
      run_as_non_root = sec.run_as_non_root;
      run_as_user = sec.run_as_user;
      drop_capabilities = if drops_all sec.drop_all_capabilities then "ALL" ∷ [] else [];
      read_only_root_filesystem = sec.read_only_root_filesystem;
      seccomp_profile = if not (sec.seccomp_profile == "") then some sec.seccomp_profile else none;
    }

-- `if v != nil { x = v }`
abbrev pub override {ℓ} : {A : Type ℓ} → Option A → Option A → Option A
override x none = x
override x (some v) = some v

abbrev pod_security_or_empty : Option PodSecurityContext → PodSecurityContext
pod_security_or_empty none = record { run_as_user = none; run_as_group = none; fs_group = none }
pod_security_or_empty (some sc) = sc

override_pod_security : PodSecurityContext → Option SecuritySpec → PodSecurityContext
override_pod_security sc none = sc
override_pod_security sc (some sec) = record {
  run_as_user = override sc.run_as_user sec.run_as_user;
  run_as_group = override sc.run_as_group sec.run_as_group;
  fs_group = override sc.fs_group sec.fs_group;
}

unfoldable pub build_pod_security_context : GameServer → GameAdapter → PodSecurityContext
unfolding override_pod_security
build_pod_security_context gs a =
    override_pod_security (pod_security_or_empty a.default_security_context) gs.spec.security

unfoldable pub apply_scheduling : Option SchedulingSpec → PodSpec → PodSpec
apply_scheduling none pod = pod
apply_scheduling (some s) pod = record pod {
  node_selector = s.node_selector;
  affinity = s.affinity;
  tolerations = s.tolerations;
}

-- `if len(xs) == 0 { xs = ys }`
abbrev or_else : List String → List String → List String
or_else [] ys = ys
or_else (x ∷ xs) ys = x ∷ xs

unfoldable pub container_ports : List PortSpec → List ContainerPort
container_ports [] = []
container_ports (p ∷ ps) =
    record { name = p.name; container_port = p.port; protocol = p.protocol } ∷ container_ports ps

unfoldable pub build_container : GameServer → GameAdapter → Container
unfolding build_security_context container_ports
build_container gs a =
    let (readiness, liveness) = a.probes gs in
    record {
      name = "server";
      image = gs.spec.runtime.image;
      image_pull_policy = gs.spec.runtime.image_pull_policy;
      command = or_else gs.spec.runtime.command (a.command gs);
      args = or_else gs.spec.runtime.args (a.args gs);
      env = a.env gs ++ gs.spec.runtime.env;
      env_from = gs.spec.runtime.env_from;
      ports = container_ports gs.spec.network.ports;
      volume_mounts = record { name = "data"; mount_path = a.data_path gs; read_only = false } ∷ [];
      resources = gs.spec.resources;
      security_context = some (build_security_context gs);
      readiness_probe = readiness;
      liveness_probe = liveness;
    }

unfoldable pub stateful_set_of : GameServer → GameAdapter → StatefulSet
unfolding build_pvc build_container build_pod_security_context apply_scheduling game_server_labels
stateful_set_of gs a =
    let pvc = build_pvc gs in
    let pod_spec : PodSpec = record {
      termination_grace_period_seconds = some 120;
      containers = build_container gs a ∷ [];
      restart_policy = "";
      volumes = [];
      security_context = some (build_pod_security_context gs a);
      node_selector = [];
      affinity = none;
      tolerations = [];
    } in
    record {
      meta = record no_meta {
        name = gs.meta.name;
        namespace = gs.meta.namespace;
        labels = game_server_labels gs;
      };
      replicas = some 1;
      selector = game_server_labels gs;
      service_name = gs.meta.name <> "-headless";
      template = record {
        labels = game_server_labels gs;
        spec = apply_scheduling gs.spec.scheduling pod_spec;
      };
      volume_claim_templates =
          record pvc { meta = record (pvc.meta) { name = "data"; namespace = "" } } ∷ [];
      update_strategy = "";
      status_replicas = 0;
      ready_replicas = 0;
    }

abbrev with_adapter : GameServer → Option GameAdapter → Option StatefulSet
with_adapter gs none = none
with_adapter gs (some a) = some (stateful_set_of gs a)

-- `none` is the error of the registry.
unfoldable pub build_stateful_set : Registry → GameServer → Option StatefulSet
unfolding stateful_set_of get_adapter
build_stateful_set registry gs = with_adapter gs (get_adapter registry gs)
