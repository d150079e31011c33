-- ===== src/Webhook/Payload.antt =====
-- src/coda_node/server/webhook.py, WebhookPayload.
use coda_self_service.Prelude.{String, Option, none, some, List, [], ◌∷◌, insert}
use coda_self_service.Prelude.Int.{ℤ}
use coda_self_service.Ir.{Float}

pub record WebhookPayload : Type 0 where
  pub job_id : String
  pub status : String
  pub counts : Option (List (String × ℤ))
  pub execution_time_ms : Option Float
  pub shots_completed : Option ℤ
  pub error : Option String

-- `WebhookPayloadValue`
pub data WebhookPayloadValue : Type 0 where
  counts_value : List (String × ℤ) → WebhookPayloadValue
  float_value : Float → WebhookPayloadValue
  int_value : ℤ → WebhookPayloadValue
  str_value : String → WebhookPayloadValue

abbrev pub Body : Type 0
Body = List (String × WebhookPayloadValue)

-- `if value is not None: result[key] = value`
abbrev put_some {ℓ} : {A : Type ℓ} → String → (A → WebhookPayloadValue) → Option A → Body → Body
put_some key wrap none body = body
put_some key wrap (some v) body = insert key (wrap v) body

unfoldable pub to_dict : WebhookPayload → Body
to_dict p = put_some "error" str_value p.error (
    put_some "shots_completed" int_value p.shots_completed (
      put_some "execution_time_ms" float_value p.execution_time_ms (
        put_some "counts" counts_value p.counts
          (("job_id", str_value p.job_id) ∷ ("status", str_value p.status) ∷ []))))

-- the payload that `send_error` builds
unfoldable pub error_payload : String → String → WebhookPayload
error_payload job_id error = record {
  job_id = job_id;
  status = "failed";
  counts = none;
  execution_time_ms = none;
  shots_completed = none;
  error = some error;
}
