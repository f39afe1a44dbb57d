-- ===== src/Tests/Requests.antt =====
-- The theorems on the webhooks, at concrete requests.
use gobehost_operator.Prelude.{◌≡◌, ◌↔◌, []}
use gobehost_operator.Webhook.{validate_create}
use gobehost_operator.Webhook.Admission.{IsAdmissible, validate_create_iff}
use gobehost_operator.Tests.Samples.{sample_server}

validate_create_iff_example : (validate_create sample_server ≡ []) ↔ IsAdmissible sample_server
validate_create_iff_example = validate_create_iff sample_server
