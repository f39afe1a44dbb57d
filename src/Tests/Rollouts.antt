-- ===== src/Tests/Rollouts.antt =====
-- The rollout machine, at a concrete pass.
use gobehost_operator.Prelude.{[], ◌≡◌, refl, arith}
use mathlib.Core.Path.{subst}
use gobehost_operator.Api.{GameServerFleet}
use gobehost_operator.Api.Schema.{fleet_status_fits}
use gobehost_operator.Cluster.{Api, Response, ok}
use gobehost_operator.Cluster.Footprint.{Extends}
use gobehost_operator.Fleet.{active}
use gobehost_operator.Fleet.Storable.{IsStorable, StoresStorable}
use gobehost_operator.Fleet.Storable.Passes.{Fitting, active-Fitting}
use gobehost_operator.Fleet.Rolling.{Follows, active-Follows}
use gobehost_operator.Tests.Samples.{server_named, sample_fleet, server_with}
use gobehost_operator.Prelude.{◌∷◌}

abbrev serving : Api
serving = server_with (server_named "lobby-gs" ∷ [])

active-Follows_example : Extends (Follows sample_fleet) [] (active serving sample_fleet []).1
active-Follows_example = active-Follows serving sample_fleet []

serving_stores : StoresStorable serving
serving_stores log sent stored e h = subst IsStorable (ok-eq sent stored e) h
  where
    ok-eq : (a b : GameServerFleet) → Response.ok a ≡ ok b → a ≡ b
    ok-eq a b p = cc

active-Fitting_example : Extends (Fitting sample_fleet) [] (active serving sample_fleet []).1
unfolding fleet_status_fits
active-Fitting_example =
    active-Fitting serving sample_fleet [] serving_stores
      (record { schema = refl; keyed = record { once = λ t. omega arith } })
