-- ===== src/Repositories/WebhookEvents.antt =====
-- `InMemoryWebhookEventRepository`.
use gateway_orchestrator.Prelude.{
  String, Option, List, leb, Map, get, put, values, filter, sort, some,
}
use gateway_orchestrator.Repositories.Payments.{optional_eq}
use gateway_orchestrator.Domain.Records.{WebhookEventRecord}

unfoldable pub create : Map WebhookEventRecord → WebhookEventRecord → Map WebhookEventRecord
create records record' = put records record'.dedupe_key record'

unfoldable pub find_by_dedupe_key : Map WebhookEventRecord → String → Option WebhookEventRecord
find_by_dedupe_key records dedupe_key = get records dedupe_key

unfoldable pub list_by_payment_id : Map WebhookEventRecord → String → List WebhookEventRecord
list_by_payment_id records payment_id =
    sort (λ a b. leb b.created_at a.created_at)
      (filter (λ r. optional_eq r.payment_id (some payment_id)) (values records))

unfoldable pub update : Map WebhookEventRecord → WebhookEventRecord → Map WebhookEventRecord
update records record' = put records record'.dedupe_key record'
