-- ===== src/Fleet/Hash.antt =====
-- The template hash: its form, what it tells apart, and the objects that carry it.
use gobehost_operator.Prelude.{
  ℕ, ◌≡◌, refl, inl, inr, false, String, List, [], some, ◌==◌, if◌then◌else◌, lookup, copy, get,
  get-insert_self, get-insert, lookup-insert_self, hex8, text_cases,
}
use gobehost_operator.Api.{
  GameServerSpec, GameServer, GameServerTemplate, template_hash_annotation, fleet_name_label,
  GameServerFleet,
}
use gobehost_operator.Fleet.Values.{compute_template_hash, build_game_server, apply_template}
use text.Mathlib.TextLemmas.{cons-ne-nil}

-- A hash is never the empty text, which stands for "no hash yet".
pub compute_template_hash-ne-empty :
    (marshal : GameServerSpec → List ℕ) (template : GameServerTemplate)
    → (compute_template_hash marshal template == "") ≡ false
unfolding compute_template_hash hex8
compute_template_hash-ne-empty marshal template =
    elim (text_cases (compute_template_hash marshal template) "") [
      | inl (e, _) ↦ absurd (cons-ne-nil _ _ e)
      | inr (_, e) ↦ e
    ]

-- What the object that startSpecUpdate sends has of the fleet and of the object before.
pub record IsUpdated (fleet : GameServerFleet) (hash : String) (before after : GameServer)
    : Type 0 where
  pub spec : after.spec ≡ fleet.spec.template.spec
  pub carried : get after.meta.annotations template_hash_annotation ≡ hash
  pub label : lookup fleet_name_label after.meta.labels ≡ some fleet.meta.name
  pub name : after.meta.name ≡ before.meta.name
  pub namespace : after.meta.namespace ≡ before.meta.namespace
  pub finalizers : after.meta.finalizers ≡ before.meta.finalizers
  pub status : after.status ≡ before.status
  pub others :
      (k : String)
      → get after.meta.annotations k
        ≡ (if template_hash_annotation == k then hash else get before.meta.annotations k)

-- The object that startSpecUpdate sends has the template's spec, the given hash as annotation and the
-- fleet's name as label; its other annotations, name, namespace, finalizers and status are those of
-- the object before.
pub apply_template-IsUpdated :
    (fleet : GameServerFleet) (hash : String) (gs : GameServer)
    → IsUpdated fleet hash gs (apply_template fleet hash gs)
unfolding apply_template
apply_template-IsUpdated fleet hash gs = record {
  spec = refl;
  carried = get-insert_self template_hash_annotation hash gs.meta.annotations;
  label =
      lookup-insert_self fleet_name_label fleet.meta.name
        (copy gs.meta.labels fleet.spec.template.meta.labels);
  name = refl;
  namespace = refl;
  finalizers = refl;
  status = refl;
  others = λ k. get-insert template_hash_annotation k hash gs.meta.annotations;
}

-- A GameServer built from the template carries the fleet's label, by which the fleet lists it, and
-- the template's hash, whatever labels and annotations the template sets itself.
pub build_game_server-marked :
    (marshal : GameServerSpec → List ℕ) (fleet : GameServerFleet) (suffix : String)
    → (lookup fleet_name_label (build_game_server marshal fleet suffix).meta.labels
        ≡ some fleet.meta.name)
      × (get (build_game_server marshal fleet suffix).meta.annotations template_hash_annotation
          ≡ compute_template_hash marshal fleet.spec.template)
      × ((build_game_server marshal fleet suffix).meta.namespace ≡ fleet.meta.namespace)
      × ((build_game_server marshal fleet suffix).spec ≡ fleet.spec.template.spec)
unfolding build_game_server
build_game_server-marked marshal fleet suffix = (
  lookup-insert_self fleet_name_label fleet.meta.name (copy [] fleet.spec.template.meta.labels),
  get-insert_self template_hash_annotation (compute_template_hash marshal fleet.spec.template)
      (copy [] fleet.spec.template.meta.annotations),
  refl,
  refl,
)
