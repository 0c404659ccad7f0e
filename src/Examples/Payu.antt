-- ===== src/Examples/Payu.antt =====
-- A webhook of PayU, and a reference in its XML.
use Prim.Native.String.{String, ◌++◌}
use mathlib.Core.Option.{some, none}
use gateway_orchestrator.Prelude.{◌≡◌, refl}
use gateway_orchestrator.Prelude.Text.{trim}
use gateway_orchestrator.Domain.Enums.{PaymentStatus}
use gateway_orchestrator.Providers.Payu.{map_transaction_state}
use gateway_orchestrator.Providers.Payu.Xml.{escape_xml, open_tag, close_tag, read_tag}
use gateway_orchestrator.Providers.Payu.Xml.Reads.{has_where, read_tag-escape_xml}
use gateway_orchestrator.Providers.Payu.Webhook.{
  map_ipn_status, ipn_status, ipn_settled, is_success,
}
use gateway_orchestrator.Providers.Payu.Webhook.Captured.{map_ipn_status-captured}

-- The texts of the example are in upper case already.
abbrev same_text : String → String
same_text s = s

map_ipn_status-captured_example :
    map_transaction_state same_text " SUCCESSFUL" "FINALIZE" ≡ PaymentStatus.captured
unfolding map_ipn_status ipn_status ipn_settled is_success trim
map_ipn_status-captured_example =
    map_ipn_status-captured same_text same_text " SUCCESSFUL" "FINALIZE" (some "00") none refl

read_tag-escape_xml_example :
    read_tag
      (open_tag "reference" ++ (escape_xml "a<b & c" ++ (close_tag "reference" ++ "</Basket>")))
      "reference"
    ≡ some (escape_xml "a<b & c")
unfolding has_where
read_tag-escape_xml_example = read_tag-escape_xml "reference" "a<b & c" "</Basket>" refl
