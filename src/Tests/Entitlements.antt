-- ===== src/Tests/Entitlements.antt =====
-- The properties of the stored entitlements at concrete values.
use vimla_ai.Common.{◌≡◌, refl, inr, true, false, some}
use vimla_ai.Common.Int.{pos}
use vimla_ai.Billing.Result.{ok}
use vimla_ai.Billing.Entitlements.{
  measured, limited, bytes, storage_max_bytes, EncodedEntitlement, PlanEntitlementRecord,
  encode_entitlement, decode_entitlement,
}
use vimla_ai.Billing.Entitlements.Storage.{decode_entitlement-encode}

decode_entitlement-encode_example :
    decode_entitlement (some storage_max_bytes) (encode_entitlement (limited measured (pos 5)))
    ≡ ok (record { key = storage_max_bytes; value = limited measured (pos 5) })
decode_entitlement-encode_example =
    decode_entitlement-encode storage_max_bytes (limited measured (pos 5)) (inr refl)

abbrev five_bytes : EncodedEntitlement
five_bytes = record {
  value_kind = bytes;
  is_unlimited = false;
  int_value = some (pos 5);
  bool_value = some true;
}

abbrev five_bytes_read : PlanEntitlementRecord
five_bytes_read = record { key = storage_max_bytes; value = limited measured (pos 5) }

five_bytes_ok : decode_entitlement (some storage_max_bytes) five_bytes ≡ ok five_bytes_read
unfolding decode_entitlement
five_bytes_ok = refl
