-- ===== src/Access/Role.antt =====
-- The `+kubebuilder:rbac` markers of the three controllers, from which the manager's ClusterRole is
-- made (config/rbac/role.yaml), and the permission that each call of the client needs.
use gobehost_operator.Prelude.{
  ◌≡◌, Bool, true, false, ◌||◌, ◌&&◌, String, List, [], ◌∷◌, ◌++◌, ◌==◌,
}
use gobehost_operator.Cluster.{Call}

pub record Rule : Type 0 where
  pub group : String
  pub resource : String
  pub verbs : List String

abbrev reading : List String
reading = "get" ∷ "list" ∷ "watch" ∷ []

abbrev all_verbs : List String
all_verbs = "get" ∷ "list" ∷ "watch" ∷ "create" ∷ "update" ∷ "patch" ∷ "delete" ∷ []

abbrev games_group : String
games_group = "games.gobehost.com"

-- gameserverfleet_controller.go
abbrev pub fleet_rules : List Rule
fleet_rules =
    record { group = games_group; resource = "gameserverfleets"; verbs = all_verbs }
    ∷ record {
      group = games_group;
      resource = "gameserverfleets/status";
      verbs = "get" ∷ "update" ∷ "patch" ∷ [];
    }
    ∷ record {
      group = games_group;
      resource = "gameserverfleets/finalizers";
      verbs = "update" ∷ [];
    }
    ∷ record { group = games_group; resource = "gameservers"; verbs = all_verbs }
    ∷ []

-- gameserver_controller.go; `core` is the group without a name
abbrev pub server_rules : List Rule
server_rules =
    record { group = games_group; resource = "gameservers"; verbs = all_verbs }
    ∷ record {
      group = games_group;
      resource = "gameservers/status";
      verbs = "get" ∷ "update" ∷ "patch" ∷ [];
    }
    ∷ record { group = games_group; resource = "gameservers/finalizers"; verbs = "update" ∷ [] }
    ∷ record { group = "apps"; resource = "statefulsets"; verbs = all_verbs }
    ∷ record { group = ""; resource = "services"; verbs = all_verbs }
    ∷ record { group = ""; resource = "persistentvolumeclaims"; verbs = all_verbs }
    ∷ record { group = ""; resource = "events"; verbs = "create" ∷ "patch" ∷ [] }
    ∷ record {
      group = "coordination.k8s.io";
      resource = "leases";
      verbs = "get" ∷ "list" ∷ "watch" ∷ "create" ∷ "update" ∷ "patch" ∷ [];
    }
    ∷ []

-- gameserverbackup_controller.go
abbrev pub backup_rules : List Rule
backup_rules =
    record { group = games_group; resource = "gameserverbackups"; verbs = all_verbs }
    ∷ record {
      group = games_group;
      resource = "gameserverbackups/status";
      verbs = "get" ∷ "update" ∷ "patch" ∷ [];
    }
    ∷ record {
      group = games_group;
      resource = "gameserverbackups/finalizers";
      verbs = "update" ∷ [];
    }
    ∷ record { group = games_group; resource = "gameservers"; verbs = reading }
    ∷ record { group = games_group; resource = "gameserverfleets"; verbs = reading }
    ∷ record { group = "batch"; resource = "cronjobs"; verbs = all_verbs }
    ∷ record { group = "batch"; resource = "jobs"; verbs = reading }
    ∷ record { group = ""; resource = "secrets"; verbs = reading }
    ∷ record { group = ""; resource = "configmaps"; verbs = reading }
    ∷ record { group = ""; resource = "persistentvolumeclaims"; verbs = reading }
    ∷ record { group = ""; resource = "events"; verbs = "create" ∷ "patch" ∷ [] }
    ∷ record {
      group = "coordination.k8s.io";
      resource = "leases";
      verbs = "get" ∷ "list" ∷ "watch" ∷ "create" ∷ "update" ∷ "patch" ∷ [];
    }
    ∷ []

-- One manager runs the three controllers, under one role.
abbrev pub manager_rules : List Rule
manager_rules = fleet_rules ++ server_rules ++ backup_rules

-- A permission that a call needs: group, resource and verb.
pub record Need : Type 0 where
  pub group : String
  pub resource : String
  pub verb : String

abbrev pub need : String → String → String → Need
need group resource verb = record { group = group; resource = resource; verb = verb }

-- The manager's client reads through a cache, which lists and watches what it holds.
abbrev to_read : String → String → List Need
to_read group resource =
    need group resource "get" ∷ need group resource "list" ∷ need group resource "watch" ∷ []

-- CreateOrUpdate reads the object, and creates or updates it.
abbrev to_apply : String → String → List Need
to_apply group resource =
    to_read group resource ++ need group resource "create" ∷ need group resource "update" ∷ []

-- The client's call and the permissions it needs; a command over RCON and a sleep ask the API server for
-- nothing.
abbrev pub needs : Call → List Need
needs (Call.get_server _) = to_read games_group "gameservers"
needs (Call.get_fleet _) = to_read games_group "gameserverfleets"
needs (Call.get_backup _) = to_read games_group "gameserverbackups"
needs (Call.get_stateful_set _) = to_read "apps" "statefulsets"
needs (Call.get_service _) = to_read "" "services"
needs (Call.get_pvc _) = to_read "" "persistentvolumeclaims"
needs (Call.get_job _) = to_read "batch" "jobs"
needs (Call.get_cron_job _) = to_read "batch" "cronjobs"
needs (Call.get_secret _) = to_read "" "secrets"
needs (Call.get_config_map _) = to_read "" "configmaps"
needs (Call.list_servers _ _) = to_read games_group "gameservers"
needs (Call.list_jobs _ _) = to_read "batch" "jobs"
needs (Call.create_server _) = need games_group "gameservers" "create" ∷ []
needs (Call.update_server _) = need games_group "gameservers" "update" ∷ []
needs (Call.patch_server _) = need games_group "gameservers" "patch" ∷ []
needs (Call.delete_server _) = need games_group "gameservers" "delete" ∷ []
needs (Call.update_server_status _) = need games_group "gameservers/status" "update" ∷ []
needs (Call.update_fleet _) = need games_group "gameserverfleets" "update" ∷ []
needs (Call.update_fleet_status _) = need games_group "gameserverfleets/status" "update" ∷ []
needs (Call.update_backup _) = need games_group "gameserverbackups" "update" ∷ []
needs (Call.update_backup_status _) = need games_group "gameserverbackups/status" "update" ∷ []
needs (Call.apply_service _ _) = to_apply "" "services"
needs (Call.apply_stateful_set _ _) = to_apply "apps" "statefulsets"
needs (Call.apply_cron_job _ _) = to_apply "batch" "cronjobs"
needs (Call.delete_service _) = need "" "services" "delete" ∷ []
needs (Call.update_stateful_set _) = need "apps" "statefulsets" "update" ∷ []
needs (Call.create_cron_job _) = need "batch" "cronjobs" "create" ∷ []
needs (Call.create_job _) = need "batch" "jobs" "create" ∷ []
needs (Call.send_command _ _ _ _ _) = []
needs (Call.sleep _) = []

abbrev is_in : String → List String → Bool
is_in x [] = false
is_in x (y ∷ ys) = x == y || is_in x ys

abbrev grants : Rule → Need → Bool
grants rule n = n.group == rule.group && (n.resource == rule.resource && is_in n.verb rule.verbs)

abbrev pub granted : List Rule → Need → Bool
granted [] n = false
granted (rule ∷ rules) n = grants rule n || granted rules n

abbrev pub all_granted : List Rule → List Need → Bool
all_granted rules [] = true
all_granted rules (n ∷ ns) = granted rules n && all_granted rules ns

-- The manager's role permits the call.
abbrev pub Permitted : Call → Type 0
Permitted c = all_granted manager_rules (needs c) ≡ true

-- The calls that wait: for a game server, or for the time to pass.
abbrev pub waits : Call → Bool
waits (Call.send_command _ _ _ _ _) = true
waits (Call.sleep _) = true
waits _ = false
