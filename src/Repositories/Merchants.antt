-- ===== src/Repositories/Merchants.antt =====
-- `InMemoryMerchantRepository`.
use gateway_orchestrator.Prelude.{String, Option, Map, get, put}
use gateway_orchestrator.Domain.Records.{Merchant}

unfoldable pub create : Map Merchant → Merchant → Map Merchant
create merchants merchant = put merchants merchant.merchant_identifier merchant

unfoldable pub find_by_merchant_identifier : Map Merchant → String → Option Merchant
find_by_merchant_identifier merchants merchant_identifier = get merchants merchant_identifier
