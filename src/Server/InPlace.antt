-- ===== src/Server/InPlace.antt =====
-- What an update that the webhook admits asks of the StatefulSet that a GameServer has.
use gobehost_operator.Prelude.{
  ◌≡◌, refl, sym, ap, ◌∙◌, inl, inr, ◌<>◌, [], none, some, Option-cases,
}
use gobehost_operator.Kube.{StatefulSet}
use gobehost_operator.Api.{GameServer}
use gobehost_operator.Adapter.{Registry, GameAdapter, get_adapter}
use gobehost_operator.Reconciler.{stateful_set_of, build_stateful_set, game_server_labels}
use gobehost_operator.Server.Edits.{mutate_stateful_set}
use gobehost_operator.Webhook.{validate_update}
use gobehost_operator.Webhook.Admission.{validate_update_iff}

-- The second StatefulSet differs from the first in no field that an update may not change, and is in
-- the others what is built for the GameServer.
pub record IsInPlace (held updated wanted : StatefulSet) : Type 0 where
  pub name : updated.meta.name ≡ held.meta.name
  pub selector : updated.selector ≡ held.selector
  pub service_name : updated.service_name ≡ held.service_name
  pub claims : updated.volume_claim_templates ≡ held.volume_claim_templates
  pub replicas : updated.replicas ≡ wanted.replicas
  pub template : updated.template ≡ wanted.template
  pub update_strategy : updated.update_strategy ≡ wanted.update_strategy
  pub labels : updated.meta.labels ≡ wanted.meta.labels

game_server_labels-same :
    (old_gs new_gs : GameServer)
    → new_gs.meta.name ≡ old_gs.meta.name
    → old_gs.spec.game.type ≡ new_gs.spec.game.type
    → game_server_labels new_gs ≡ game_server_labels old_gs
unfolding game_server_labels
game_server_labels-same old_gs new_gs name type = rw (name, type) refl

get_adapter-same :
    (registry : Registry) (old_gs new_gs : GameServer)
    → old_gs.spec.game.type ≡ new_gs.spec.game.type
    → get_adapter registry old_gs ≡ get_adapter registry new_gs
unfolding get_adapter
get_adapter-same registry old_gs new_gs type = rw type refl

-- The StatefulSet that is found, after the edit of a game that an adapter knows.
abbrev edited : GameServer → GameAdapter → StatefulSet → StatefulSet
edited gs a sts =
    let desired = stateful_set_of gs a in
    record sts {
      meta = record (sts.meta) { labels = desired.meta.labels };
      replicas = desired.replicas;
      selector = desired.selector;
      service_name = desired.service_name;
      template = desired.template;
      update_strategy = desired.update_strategy;
    }

mutate_stateful_set-known :
    (registry : Registry) (gs : GameServer) (a : GameAdapter) (sts : StatefulSet)
    → get_adapter registry gs ≡ some a
    → mutate_stateful_set registry gs sts ≡ some (edited gs a sts)
unfolding mutate_stateful_set build_stateful_set
mutate_stateful_set-known registry gs a sts found = rw found refl

mutate_stateful_set-unknown :
    (registry : Registry) (gs : GameServer) (sts : StatefulSet)
    → get_adapter registry gs ≡ none
    → mutate_stateful_set registry gs sts ≡ none
unfolding mutate_stateful_set build_stateful_set
mutate_stateful_set-unknown registry gs sts missing = rw missing refl

some_cancel : {A : Type 0} (x y : A) → some x ≡ some y → x ≡ y
some_cancel x y h = cc

edited-IsInPlace :
    (old_gs new_gs : GameServer) (a : GameAdapter) (base : StatefulSet)
    → new_gs.meta.name ≡ old_gs.meta.name
    → old_gs.spec.game.type ≡ new_gs.spec.game.type
    → IsInPlace
        (edited old_gs a base)
        (edited new_gs a (edited old_gs a base))
        (stateful_set_of new_gs a)
unfolding stateful_set_of
edited-IsInPlace old_gs new_gs a base name type = record {
  name = refl;
  selector = game_server_labels-same old_gs new_gs name type;
  service_name = ap (λ n. n <> "-headless") name;
  claims = refl;
  replicas = refl;
  template = refl;
  update_strategy = refl;
  labels = refl;
}

-- If the webhook admits an update of a GameServer with the same name, and the StatefulSet that is
-- held was edited for the old one, it can be edited for the new one: its name, selector, claim
-- templates and the name of its Service, which an update may not change, stay, and its replicas,
-- template, strategy and labels are those built for the new one.
pub admitted_update-IsInPlace :
    (registry : Registry) (old_gs new_gs : GameServer) (base held : StatefulSet)
    → new_gs.meta.name ≡ old_gs.meta.name
    → validate_update old_gs new_gs ≡ []
    → mutate_stateful_set registry old_gs base ≡ some held
    → (updated wanted : StatefulSet) × (mutate_stateful_set registry new_gs held ≡ some updated)
      × (build_stateful_set registry new_gs ≡ some wanted)
      × IsInPlace held updated wanted
unfolding build_stateful_set
admitted_update-IsInPlace registry old_gs new_gs base held name admitted was =
    let (_, type) = (validate_update_iff old_gs new_gs).0 admitted in
    elim (Option-cases (get_adapter registry old_gs)) [
      | inl e ↦ absurd (cc (was, mutate_stateful_set-unknown registry old_gs base e))
      | inr (a, e) ↦
          let e' = sym (get_adapter-same registry old_gs new_gs type) ∙ e in
          let same : edited old_gs a base ≡ held =
            some_cancel _ _ (sym (mutate_stateful_set-known registry old_gs a base e) ∙ was) in
          (
            edited new_gs a held,
            stateful_set_of new_gs a,
            mutate_stateful_set-known registry new_gs a held e',
            rw e' refl,
            rw (← same) (edited-IsInPlace old_gs new_gs a base name type),
          )
    ]
