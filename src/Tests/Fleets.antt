-- ===== src/Tests/Fleets.antt =====
-- The theorems on the fleet controller, at concrete fleets and servers.
use gobehost_operator.Prelude.{
  ◌≤◌, ◌≡◌, refl, ◌↔◌, ◌⊎◌, true, false, List, [], ◌∷◌, none, arith, length, ltb, if◌then◌else◌,
}
use gobehost_operator.Api.{GameServer, GameServerFleet, RolloutRecord}
use gobehost_operator.Cluster.{
  ok, err, other_error, Api, panicked, count_calls, is_update_fleet, deleted_names,
}
use gobehost_operator.Fleet.{
  compute_template_hash, find_named, apply_template, synced, settle, steady, handle_steady_state,
  remove_servers, finalize,
}
use gobehost_operator.Fleet.Deletion.{
  KeepsNames, listed, remove_servers-deleted_names, finalize_waits,
}
use gobehost_operator.Fleet.SteadyState.{handle_steady_state-panicked_iff, update_converges}
use gobehost_operator.Fleet.History.{opened, EnforcesMaxItems}
use gobehost_operator.Fleet.Report.{Reports, synced-Reports}
use gobehost_operator.Tests.Samples.{server_named, sample_server, sample_fleet, server_with}

abbrev two_servers : List GameServer
two_servers = server_named "a" ∷ server_named "b" ∷ []

abbrev two : Api
two = server_with two_servers

keeps : KeepsNames two
keeps log gs gs' h = cc

remove_servers-deleted_names_example :
    deleted_names (remove_servers two false two_servers []).1 ≡ "b" ∷ "a" ∷ []
unfolding remove_servers
remove_servers-deleted_names_example =
    remove_servers-deleted_names two false two_servers [] true keeps refl

finalize_waits_example :
    (count_calls is_update_fleet (finalize two sample_fleet []).1 ≡ 0)
    ⊎ (listed two sample_fleet [] ≡ ok [])
finalize_waits_example = finalize_waits two sample_fleet []

panicked_iff_example :
    (handle_steady_state two sample_fleet two_servers []).0 ≡ panicked
    ↔ ((find_named "lobby-gs" two_servers ≡ none) × (2 ≤ length two_servers))
panicked_iff_example = handle_steady_state-panicked_iff two sample_fleet two_servers []

-- A GameServer that the fleet has brought up to date.
abbrev updated_server : GameServer
updated_server =
    apply_template sample_fleet (compute_template_hash two.marshal sample_fleet.spec.template)
      sample_server

update_converges_example :
    steady two sample_fleet updated_server [] ≡ settle two sample_fleet updated_server []
update_converges_example = update_converges two sample_fleet sample_server [] refl

abbrev open_record : RolloutRecord
open_record = opened 1 sample_fleet sample_server

abbrev with_history : List RolloutRecord → GameServerFleet
with_history h = record sample_fleet { status = record (sample_fleet.status) { history = h } }

abbrev ten_records : List RolloutRecord
ten_records =
    open_record ∷ open_record ∷ open_record ∷ open_record ∷ open_record ∷ open_record ∷ open_record
    ∷ open_record ∷ open_record ∷ open_record ∷ []

-- A server that enforces the schema's bound.
abbrev strict : Api
strict = record two {
  update_fleet_status =
      λ log fleet. if ltb 10 (length fleet.status.history) then err other_error else ok fleet;
}

strict_enforces : EnforcesMaxItems strict
strict_enforces log fleet h = ground arith

synced-Reports_example :
    Reports
      (synced 7 sample_fleet sample_server)
      sample_server.status.ready
      sample_server.status.phase
synced-Reports_example = synced-Reports 7 sample_fleet sample_server

abbrev starting_server : GameServer
starting_server = record sample_server { status = record (sample_server.status) { ready = false } }
