-- ===== src/Reconciler/Wiring.antt =====
-- How the objects of one GameServer find one another: selectors, names, claims.
use gobehost_operator.Prelude.{◌≡◌, ◌≢◌, inl, inr, String, [], some, arith, lookup, Option-cases}
use gobehost_operator.Kube.{Service, StatefulSet}
use gobehost_operator.Api.{GameServer}
use gobehost_operator.Adapter.{GameAdapter, Registry, registry}
use gobehost_operator.Reconciler.Workloads.{stateful_set_of, build_stateful_set}

pub built_by :
    (registry : Registry) (gs : GameServer) (sts : StatefulSet)
    → build_stateful_set registry gs ≡ some sts
    → (a : GameAdapter) × (sts ≡ stateful_set_of gs a)
unfolding build_stateful_set
built_by registry gs sts h = elim (Option-cases (lookup gs.spec.game.type registry)) [
  | inl e ↦ absurd (ground arith)
  | inr (a, e) ↦ (a, ground arith)
]

-- A Service sends traffic to the pods of its own namespace that carry all labels of its selector, and
-- to none if the selector is empty.
pub record Selects (svc : Service) (sts : StatefulSet) : Type 0 where
  pub namespace : svc.meta.namespace ≡ sts.meta.namespace
  pub selective : svc.selector ≢ []
  pub carried :
      (k v : String) → lookup k svc.selector ≡ some v → lookup k sts.template.labels ≡ some v

-- In that namespace, the GameServer with the name and the game of the first.
abbrev pub IsServer : String → GameServer → GameServer → Type 0
IsServer namespace gs other =
    (namespace ≡ other.meta.namespace)
    × (gs.meta.name ≡ other.meta.name)
    × (gs.spec.game.type ≡ other.spec.game.type)
