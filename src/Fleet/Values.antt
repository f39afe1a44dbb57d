-- ===== src/Fleet/Values.antt =====
-- internal/controller/gameserverfleet_controller.go: the functions that make no call.
use gobehost_operator.Prelude.{
  ℕ, ◌-◌, ◌*◌, ◌%◌, Bool, false, not, String, ◌<>◌, List, [], ◌∷◌, Option, none, some, ◌==◌, ltb,
  if◌then◌else◌, length, drop, contains, insert, copy, hex8,
}
use gobehost_operator.Prelude.Int.{ℤ, pos}
use gobehost_operator.Kube.{Time, no_meta, EnvVar, ServicePort}
use gobehost_operator.Api.{
  unset, PortSpec, GameServerSpec, GameServer, GameServerTemplate, RolloutRecord,
  game_server_fleet_finalizer, template_hash_annotation, fleet_name_label, GameServerFleet,
}
use Prim.Native.Nat.{bit_xor}

-- hash/fnv: the loop of Sum32 of New32a, on the bytes written.
unfoldable pub fnv32a : ℕ → List ℕ → ℕ
fnv32a h [] = h
fnv32a h (b ∷ bs) = fnv32a (bit_xor h b * 16777619 % 4294967296) bs

-- computeTemplateHash; `marshal` is json.Marshal of the spec.
unfoldable pub compute_template_hash : (GameServerSpec → List ℕ) → GameServerTemplate → String
unfolding fnv32a
compute_template_hash marshal template = hex8 (fnv32a 2166136261 (marshal template.spec))

-- getRCONPassword
unfoldable pub get_rcon_password : List EnvVar → String
get_rcon_password [] = ""
get_rcon_password (e ∷ env) = if e.name == "RCON_PASSWORD" then e.value else get_rcon_password env

unfoldable pub find_named : String → List GameServer → Option GameServer
find_named name [] = none
find_named name (gs ∷ items) = if gs.meta.name == name then some gs else find_named name items

abbrev pub only_item : List GameServer → Option GameServer
only_item (gs ∷ []) = some gs
only_item _ = none

abbrev or_only : Option GameServer → List GameServer → Option GameServer
or_only (some gs) items = some gs
or_only none items = only_item items

-- findCurrentGS
unfoldable pub find_current : GameServerFleet → List GameServer → Option GameServer
unfolding find_named
find_current fleet items = or_only (find_named fleet.status.current_game_server items) items

abbrev pub server_name : GameServerFleet → String → String
server_name fleet suffix =
    if not (suffix == "") then fleet.meta.name <> ("-" <> suffix) else fleet.meta.name <> "-gs"

-- buildGameServer
unfoldable pub build_game_server : (GameServerSpec → List ℕ) → GameServerFleet → String → GameServer
unfolding compute_template_hash copy insert
build_game_server marshal fleet suffix =
    let template = fleet.spec.template in
    record {
      meta = record no_meta {
        name = server_name fleet suffix;
        namespace = fleet.meta.namespace;
        labels = insert fleet_name_label fleet.meta.name (copy [] template.meta.labels);
        annotations =
            insert template_hash_annotation (compute_template_hash marshal template)
              (copy [] template.meta.annotations);
      };
      spec = template.spec;
      status = record {
        conditions = [];
        phase = unset;
        ready = false;
        endpoint = "";
        address = "";
        ports = [];
        player_count = none;
        observed_generation = 0;
      };
    }

-- The edits that startSpecUpdate makes to a copy of the current GameServer.
unfoldable pub apply_template : GameServerFleet → String → GameServer → GameServer
unfolding copy insert
apply_template fleet hash gs = record gs {
  spec = fleet.spec.template.spec;
  meta = record (gs.meta) {
    annotations = insert template_hash_annotation hash gs.meta.annotations;
    labels =
        insert fleet_name_label fleet.meta.name
          (copy gs.meta.labels fleet.spec.template.meta.labels);
  };
}

-- The object that patchTemplateHash sends.
unfoldable pub annotate_hash : String → GameServer → GameServer
unfolding insert
annotate_hash hash gs = record gs {
  meta = record (gs.meta) {
    annotations = insert template_hash_annotation hash gs.meta.annotations;
  };
}

-- `if CompletedAt == nil { … }`
complete_if : Option Time → Time → String → RolloutRecord → RolloutRecord
complete_if (some t) now version r = r
complete_if none now version r = record r {
  completed_at = some now;
  result = "Success";
  message = "Update to version " <> (version <> " completed");
}

-- `fleet.Status.History[lastIdx]`, completed if it is not.
unfoldable pub complete_last : Time → String → List RolloutRecord → List RolloutRecord
unfolding complete_if
complete_last now version [] = []
complete_last now version (r ∷ []) = complete_if r.completed_at now version r ∷ []
complete_last now version (r ∷ s ∷ rs) = r ∷ complete_last now version (s ∷ rs)

-- The last ten records.
unfoldable pub trim_history : List RolloutRecord → List RolloutRecord
trim_history h = if ltb 10 (length h) then drop (length h - 10) h else h

override_port : ServicePort → Option ℤ → ServicePort
override_port sp (some t) = record sp { target_port = t }
override_port sp none = record sp { target_port = sp.port }

-- buildServicePorts
unfoldable pub build_service_ports : List PortSpec → List ServicePort
unfolding override_port
build_service_ports [] = []
build_service_ports (p ∷ ps) =
    override_port
      (record { name = p.name; port = p.port; target_port = pos 0; protocol = p.protocol })
      p.target_port
    ∷ build_service_ports ps

-- hasFleetFinalizer
unfoldable pub has_fleet_finalizer : GameServerFleet → Bool
unfolding contains
has_fleet_finalizer fleet = contains fleet.meta.finalizers game_server_fleet_finalizer
