-- ===== src/Reconciler/Environment.antt =====
-- The environment of the game container.
use gobehost_operator.Prelude.{
  ◌≡◌, refl, Bool, false, String, List, [], ◌∷◌, ◌++◌, Option, none, some, arith, ◌==◌,
  if◌then◌else◌, lookup,
}
use gobehost_operator.Prelude.Int.{ℤ}
use gobehost_operator.Kube.{EnvVar}
use gobehost_operator.Api.{ServerSpec, GameServer}
use gobehost_operator.Adapter.{
  GameAdapter, plain, profile_map, minecraft_env, server_env, type_env, set_int, set_bool, set_text,
}
use gobehost_operator.Reconciler.Workloads.{build_container, override}

-- The value that a container sees: of two entries with one name the later holds.
abbrev seen : String → List EnvVar → Option EnvVar
seen name [] = none
seen name (e ∷ env) =
    let later = seen name env in
    elim later [ some v ↦ some v | none ↦ if e.name == name then some e else none ]

seen-append :
    (name : String) (xs ys : List EnvVar)
    → seen name (xs ++ ys) ≡ override (seen name xs) (seen name ys)
seen-append name [] ys = ground arith
seen-append name (x ∷ xs) ys = ground (arith, seen-append name xs ys)

-- In the built container a variable of the user's spec wins over the adapter's, and a variable that
-- the spec does not name has the adapter's value.
build_container-env :
    (gs : GameServer) (a : GameAdapter) (name : String)
    → seen name (build_container gs a).env
      ≡ override (seen name (a.env gs)) (seen name gs.spec.runtime.env)
unfolding build_container
build_container-env gs a name = seen-append name (a.env gs) gs.spec.runtime.env

-- What the profile says of the variable TYPE.
abbrev pub profile_type : String → Option EnvVar
profile_type profile =
    if profile == ""
    then some (plain "TYPE" "VANILLA")
    else elim (lookup profile profile_map) [ some typ ↦ some (plain "TYPE" typ) | none ↦ none ]

-- None of the variables of the server settings has this name.
abbrev IsOther : String → Type 0
IsOther name =
    (("MAX_PLAYERS" == name) ≡ false)
    × (("MOTD" == name) ≡ false)
    × (("LEVEL" == name) ≡ false)
    × (("DIFFICULTY" == name) ≡ false)
    × (("MODE" == name) ≡ false)
    × (("PVP" == name) ≡ false)
    × (("ONLINE_MODE" == name) ≡ false)

set_int_lacks :
    (n name : String) (o : Option ℤ) → (n == name) ≡ false → seen name (set_int n o) ≡ none
set_int_lacks n name o h = ground arith

set_bool_lacks :
    (n name : String) (o : Option Bool) → (n == name) ≡ false → seen name (set_bool n o) ≡ none
set_bool_lacks n name o h = ground arith

set_text_lacks : (n name v : String) → (n == name) ≡ false → seen name (set_text n v) ≡ none
set_text_lacks n name v h = ground arith

server_env_lacks :
    (name : String) (o : Option ServerSpec) → IsOther name → seen name (server_env o) ≡ none
unfolding server_env
server_env_lacks name none h = refl
server_env_lacks name (some srv) h = simp (
  seen-append,
  set_int_lacks "MAX_PLAYERS" name srv.max_players h.0,
  set_text_lacks "MOTD" name srv.motd h.1,
  set_text_lacks "LEVEL" name srv.level_name h.2,
  set_text_lacks "DIFFICULTY" name srv.difficulty h.3,
  set_text_lacks "MODE" name srv.game_mode h.4,
  set_bool_lacks "PVP" name srv.pvp h.5,
  set_bool_lacks "ONLINE_MODE" name srv.online_mode h.6,
)

seen-type_env : (profile : String) → seen "TYPE" (type_env profile) ≡ profile_type profile
unfolding type_env profile_map lookup
seen-type_env profile = ground arith

type_env_lacks :
    (name profile : String) → ("TYPE" == name) ≡ false → seen name (type_env profile) ≡ none
unfolding type_env profile_map lookup
type_env_lacks name profile h = ground arith

-- What follows EULA and VERSION in the list.
tail_lacks :
    (name profile : String) (o : Option ServerSpec)
    → ("TYPE" == name) ≡ false
    → IsOther name
    → seen name (type_env profile ++ server_env o) ≡ none
tail_lacks name profile o h k =
    rw (seen-append, type_env_lacks name profile h, server_env_lacks name o k)

tail_type :
    (profile : String) (o : Option ServerSpec)
    → seen "TYPE" (type_env profile ++ server_env o) ≡ profile_type profile
tail_type profile o = rw (
  seen-append,
  seen-type_env profile,
  server_env_lacks "TYPE" o (refl, refl, refl, refl, refl, refl, refl),
)

-- A Minecraft container sees the accepted EULA, the version of the spec, and as TYPE what its profile
-- says: VANILLA for none, the profile's own type for a known one, nothing for an unknown one.
minecraft_env_core :
    (gs : GameServer)
    → (seen "EULA" (minecraft_env gs) ≡ some (plain "EULA" "TRUE"))
      × (seen "VERSION" (minecraft_env gs) ≡ some (plain "VERSION" gs.spec.game.version))
      × (seen "TYPE" (minecraft_env gs) ≡ profile_type gs.spec.game.profile)
unfolding minecraft_env
minecraft_env_core gs =
    let profile = gs.spec.game.profile in
    let srv = gs.spec.server in
    let others : IsOther "EULA" × IsOther "VERSION" =
      ((refl, refl, refl, refl, refl, refl, refl), (refl, refl, refl, refl, refl, refl, refl)) in
    (
      ground (arith, tail_lacks "EULA" profile srv refl others.0),
      ground (arith, tail_lacks "VERSION" profile srv refl others.1),
      ground (arith, tail_type profile srv),
    )
