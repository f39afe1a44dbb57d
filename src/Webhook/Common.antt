-- ===== src/Webhook/Common.antt =====
-- What both webhooks share: the error list of the validation (field.ErrorList) and its paths.
use gobehost_operator.Prelude.{
  ℕ, Bool, true, false, String, List, [], ◌∷◌, ◌++◌, ◌==◌, if◌then◌else◌,
}
use gobehost_operator.Prelude.Int.{ℤ, pos, eqb_ℤ}
use gobehost_operator.Api.{GameServerSpec}

pub data PathElement : Type 0 where
  child : String → PathElement
  index : ℕ → PathElement

abbrev pub FieldPath : Type 0
FieldPath = List PathElement

pub data FieldError : Type 0 where
  required : FieldPath → String → FieldError
  forbidden : FieldPath → String → FieldError
  invalid : FieldPath → ℤ → String → FieldError

-- `if cond { allErrs = append(allErrs, e) }`, the list that one test adds.
abbrev pub error_if : Bool → FieldError → List FieldError
error_if true e = e ∷ []
error_if false e = []

abbrev pub is_nil {ℓ} : {A : Type ℓ} → List A → Bool
is_nil [] = true
is_nil (x ∷ xs) = false

-- The five tests of a GameServerSpec that both validators make, under the path of the spec.
unfoldable pub validate_required : FieldPath → GameServerSpec → List FieldError
validate_required path spec =
    error_if (spec.game.type == "")
      (required (path ++ child "game" ∷ child "type" ∷ []) "game type is required")
    ++ (error_if (spec.game.version == "")
          (required (path ++ child "game" ∷ child "version" ∷ []) "game version is required")
        ++ (error_if (spec.runtime.image == "")
              (required (path ++ child "runtime" ∷ child "image" ∷ []) "runtime image is required")
            ++ (error_if (is_nil spec.network.ports) (
                  required (path ++ child "network" ∷ child "ports" ∷ [])
                    "at least one port is required")
                ++ error_if (eqb_ℤ spec.storage.size (pos 0)) (
                    required (path ++ child "storage" ∷ child "size" ∷ [])
                      "storage size is required"))))

abbrev default_text : String → String → String
default_text d s = if s == "" then d else s

abbrev default_modes : List String → List String
default_modes [] = "ReadWriteOnce" ∷ []
default_modes (m ∷ ms) = m ∷ ms

-- The three defaults of a GameServerSpec that both defaulters set.
unfoldable pub default_common : GameServerSpec → GameServerSpec
default_common spec = record spec {
  runtime = record (spec.runtime) {
    image_pull_policy = default_text "IfNotPresent" spec.runtime.image_pull_policy;
  };
  storage = record (spec.storage) { access_modes = default_modes spec.storage.access_modes };
  network = record (spec.network) {
    service_type = default_text "LoadBalancer" spec.network.service_type;
  };
}
