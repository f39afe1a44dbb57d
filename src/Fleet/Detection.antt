-- ===== src/Fleet/Detection.antt =====
-- That a change of the template is noticed.
use gobehost_operator.Prelude.{
  ℕ, ◌≡◌, ◌≢◌, refl, sym, List, ◌∷◌, ◌++◌, All, arith, inl, inr, false, ◌==◌, get, text_cases,
}
use gobehost_operator.Prelude.Hex.{hex8_cancel}
use gobehost_operator.Api.{
  GameServerSpec, GameServerTemplate, GameServer, GameServerFleet, template_hash_annotation,
}
use gobehost_operator.Cluster.{Api}
use gobehost_operator.Fleet.Values.{compute_template_hash}
use gobehost_operator.Fleet.Statuses.{is_failed}
use gobehost_operator.Fleet.Rollout.{start_spec_update, steady}
use gobehost_operator.Fleet.Fnv.{IsByte, fnv32a-lt, fnv32a_byte}
use gobehost_operator.Fleet.Hash.{compute_template_hash-ne-empty}

-- Two templates whose specs marshal to bytes that differ at one place have different hashes.
pub template_hash_tells :
    (marshal : GameServerSpec → List ℕ) (before after : GameServerTemplate) (xs : List ℕ) (b c : ℕ)
    (ys : List ℕ)
    → marshal before.spec ≡ xs ++ b ∷ ys
    → marshal after.spec ≡ xs ++ c ∷ ys
    → IsByte b
    → IsByte c
    → All IsByte ys
    → b ≢ c
    → compute_template_hash marshal before ≢ compute_template_hash marshal after
unfolding compute_template_hash
template_hash_tells marshal before after xs b c ys hb hc bb bc hys differs = λ e. differs (
    fnv32a_byte 2166136261 xs b c ys (omega arith) bb bc hys (
      rw (sym hb, sym hc)
        (hex8_cancel _ _ (fnv32a-lt 2166136261 (marshal before.spec) (omega arith))
          (fnv32a-lt 2166136261 (marshal after.spec) (omega arith)) e)))

-- A GameServer that is not failed and carries the hash of an earlier template is updated to the
-- fleet's template where the marshalled specs of the two differ in exactly one byte.
pub steady_starts_update :
    (api : Api) (fleet : GameServerFleet) (gs : GameServer) (before : GameServerTemplate)
    (xs : List ℕ) (b c : ℕ) (ys : List ℕ)
    → api.marshal before.spec ≡ xs ++ b ∷ ys
    → api.marshal fleet.spec.template.spec ≡ xs ++ c ∷ ys
    → IsByte b
    → IsByte c
    → All IsByte ys
    → b ≢ c
    → get gs.meta.annotations template_hash_annotation ≡ compute_template_hash api.marshal before
    → is_failed gs.status.phase ≡ false
    → steady api fleet gs
      ≡ start_spec_update api fleet gs (compute_template_hash api.marshal fleet.spec.template)
unfolding steady
steady_starts_update api fleet gs before xs b c ys hb hc bb bc hys differs carried well =
    rw (well, carried, compute_template_hash-ne-empty api.marshal before, told) refl
  where
    told :
        (compute_template_hash api.marshal before
          == compute_template_hash api.marshal fleet.spec.template)
        ≡ false
    told =
        elim (text_cases (compute_template_hash api.marshal before)
          (compute_template_hash api.marshal fleet.spec.template)) [
            | inl (e, _) ↦ absurd (
                template_hash_tells api.marshal before fleet.spec.template xs b c ys hb hc bb bc hys
                  differs e)
            | inr (_, e) ↦ e
          ]
