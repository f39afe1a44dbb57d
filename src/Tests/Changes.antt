-- ===== src/Tests/Changes.antt =====
-- The detection of a changed template, at a concrete change of version.
use gobehost_operator.Prelude.{ℕ, ◌≡◌, refl, List, [], ◌∷◌, ◌==◌, if◌then◌else◌, arith, hex8, get}
use gobehost_operator.Api.{GameServerSpec, GameServer, GameServerTemplate, template_hash_annotation}
use gobehost_operator.Kube.{no_meta}
use gobehost_operator.Cluster.{Api}
use gobehost_operator.Fleet.{compute_template_hash, start_spec_update, steady}
use gobehost_operator.Fleet.Detection.{steady_starts_update}
use gobehost_operator.Tests.Samples.{sample_spec, sample_server, sample_fleet, server_with}

abbrev marshal_version : GameServerSpec → List ℕ
marshal_version spec = 123 ∷ (if spec.game.version == "1.21" then 49 else 48) ∷ 125 ∷ []

abbrev marshalling : Api
marshalling = record (server_with []) { marshal = marshal_version }

abbrev earlier : GameServerTemplate
earlier = record {
  meta = no_meta;
  spec = record sample_spec { game = record (sample_spec.game) { version = "1.20" } };
}

abbrev carrying : GameServer
carrying = record sample_server {
  meta = record (sample_server.meta) {
    annotations = (template_hash_annotation, compute_template_hash marshal_version earlier) ∷ [];
  };
}

steady_starts_update_example :
    steady marshalling sample_fleet carrying
    ≡ start_spec_update marshalling sample_fleet carrying
        (compute_template_hash marshal_version sample_fleet.spec.template)
unfolding compute_template_hash hex8 get
steady_starts_update_example =
    steady_starts_update marshalling sample_fleet carrying earlier (123 ∷ []) 48 49 (125 ∷ []) refl
      refl (omega arith) (omega arith) (omega arith, tt) (λ e. absurd (omega arith)) refl refl
