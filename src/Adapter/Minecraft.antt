-- ===== src/Adapter/Minecraft.antt =====
-- internal/adapter/minecraft.go
use gobehost_operator.Prelude.{
  Bool, true, false, not, String, List, [], ◌∷◌, ◌++◌, Option, none, some, StringMap, ◌==◌,
  if◌then◌else◌, lookup, itoa,
}
use gobehost_operator.Prelude.Int.{ℤ, pos}
use gobehost_operator.Kube.{EnvVar, Probe}
use gobehost_operator.Api.{ServerSpec, GameServer}
use gobehost_operator.Adapter.Interface.{GameAdapter, Registry, register}

abbrev pub plain : String → String → EnvVar
plain name value = record { name = name; value = value; value_from = none }

unfoldable pub profile_map : StringMap
profile_map =
    ("paper", "PAPER")
    ∷ ("forge", "FORGE")
    ∷ ("fabric", "FABRIC")
    ∷ ("spigot", "SPIGOT")
    ∷ ("bukkit", "BUKKIT")
    ∷ []

-- strconv.FormatBool
abbrev pub format_bool : Bool → String
format_bool true = "true"
format_bool false = "false"

abbrev known_profile : Option String → List EnvVar
known_profile (some typ) = plain "TYPE" typ ∷ []
known_profile none = []

-- The two tests of the profile, in the order of the source.
unfoldable pub type_env : String → List EnvVar
unfolding profile_map lookup
type_env profile =
    (if not (profile == "") then known_profile (lookup profile profile_map) else [])
    ++ (if profile == "" then plain "TYPE" "VANILLA" ∷ [] else [])

abbrev pub set_int : String → Option ℤ → List EnvVar
set_int name none = []
set_int name (some n) = plain name (itoa n) ∷ []

abbrev pub set_bool : String → Option Bool → List EnvVar
set_bool name none = []
set_bool name (some b) = plain name (format_bool b) ∷ []

abbrev pub set_text : String → String → List EnvVar
set_text name value = if not (value == "") then plain name value ∷ [] else []

unfoldable pub server_env : Option ServerSpec → List EnvVar
server_env none = []
server_env (some srv) =
    set_int "MAX_PLAYERS" srv.max_players
    ++ (set_text "MOTD" srv.motd
        ++ (set_text "LEVEL" srv.level_name
            ++ (set_text "DIFFICULTY" srv.difficulty
                ++ (set_text "MODE" srv.game_mode
                    ++ (set_bool "PVP" srv.pvp ++ set_bool "ONLINE_MODE" srv.online_mode)))))

unfoldable pub minecraft_env : GameServer → List EnvVar
minecraft_env gs =
    plain "EULA" "TRUE"
    ∷ plain "VERSION" gs.spec.game.version
    ∷ (type_env gs.spec.game.profile ++ server_env gs.spec.server)

unfoldable pub minecraft_probes : GameServer → Option Probe × Option Probe
minecraft_probes _ = (
  some (record {
    tcp_port = pos 25565;
    initial_delay_seconds = 30;
    period_seconds = 10;
    failure_threshold = 10;
  }),
  some (record {
    tcp_port = pos 25565;
    initial_delay_seconds = 120;
    period_seconds = 30;
    failure_threshold = 5;
  }),
)

unfoldable pub minecraft_adapter : GameAdapter
unfolding minecraft_env minecraft_probes
minecraft_adapter = record {
  name = "minecraft";
  env = minecraft_env;
  command = λ _. [];
  args = λ _. [];
  probes = minecraft_probes;
  data_path = λ _. "/data";
  default_security_context = some (record {
    run_as_user = some (pos 1000);
    run_as_group = some (pos 1000);
    fs_group = some (pos 1000);
  });
}

-- The registry after the package's `init`.
unfoldable pub registry : Registry
unfolding register minecraft_adapter
registry = register minecraft_adapter []
