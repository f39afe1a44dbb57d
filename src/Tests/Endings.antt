-- ===== src/Tests/Endings.antt =====
-- The end of a deletion and the length of a pass, at concrete fleets.
use gobehost_operator.Prelude.{◌+◌, ◌≤◌, ◌≡◌, refl, ◌⊎◌, List, [], ◌∷◌, some}
use gobehost_operator.Api.{GameServer, GameServerFleet}
use gobehost_operator.Cluster.{Api, ok, done, requeue_after, deleted_names, count_calls}
use gobehost_operator.Fleet.{finalize, reconcile_fleet}
use gobehost_operator.Fleet.Deletion.{KeepsNames}
use gobehost_operator.Fleet.Draining.{remaining, Obeys, Releases, finalize_twice}
use gobehost_operator.Access.Waits.{waited}
use gobehost_operator.Access.Waiting.{reconcile_fleet_waits}
use gobehost_operator.Tests.Samples.{server_named, sample_fleet, warning, server_with}

abbrev present : List GameServer
present = server_named "a" ∷ server_named "b" ∷ []

-- A server that forgets what is deleted.
abbrev forgetting : Api
forgetting = record (server_with []) {
  list_servers = λ log n l. ok (remaining (deleted_names log) present);
}

obeys : Obeys forgetting
obeys = record {
  updates = λ log gs. (gs, refl);
  deletes = λ log gs. refl;
  drops = λ log svc. refl;
  releases = λ log fleet. (fleet, refl);
}

keeps : KeepsNames forgetting
keeps log gs gs' h = cc

finalize_twice_example :
    let after = (finalize forgetting sample_fleet []).1 in
    Releases sample_fleet [] (finalize forgetting sample_fleet [])
    ⊎ (((finalize forgetting sample_fleet []).0 ≡ done (requeue_after 2))
        × Releases sample_fleet after (finalize forgetting sample_fleet after))
finalize_twice_example =
    finalize_twice forgetting sample_fleet present [] obeys keeps (refl, (refl, tt)) (λ log. refl)

abbrev warned_fleet : GameServerFleet
warned_fleet = record sample_fleet {
  spec = record (sample_fleet.spec) { graceful_shutdown = some warning };
}

reconcile_fleet_waits_example :
    count_calls (waited 8) (reconcile_fleet (server_with present) warned_fleet []).1 ≤ 27 + 0
reconcile_fleet_waits_example = reconcile_fleet_waits 8 (server_with present) warned_fleet []
