-- ===== src/Billing/Entitlements/Storage.antt =====
-- Entitlements survive their storage.
use vimla_ai.Common.{◌≡◌, refl, ◌⊎◌, inl, inr, Option, none, some, arith}
use vimla_ai.Billing.Result.{ok, >>=-returns, ok-injective}
use vimla_ai.Billing.Entitlements.{
  PlanEntitlementKey, EntitlementValueKind, EntitlementValue, counted, measured, unlimited, limited,
  switched, to_be_decided, count, bytes, boolean, tbd, kind_of_amount, expected_kind_for_key,
  EncodedEntitlement, PlanEntitlementRecord, encode_entitlement, decode_value, decode_entitlement,
}

abbrev pub kind_of : EntitlementValue → EntitlementValueKind
kind_of to_be_decided = tbd
kind_of (switched b) = boolean
kind_of (unlimited k) = kind_of_amount k
kind_of (limited k n) = kind_of_amount k

-- A value is of the kind that its key expects, or is yet to be decided.
abbrev pub IsFit : PlanEntitlementKey → EntitlementValue → Type 0
IsFit key value = (kind_of value ≡ tbd) ⊎ (kind_of value ≡ expected_kind_for_key key)

decode_value-encode :
    (value : EntitlementValue) (expected : EntitlementValueKind)
    → (kind_of value ≡ tbd) ⊎ (kind_of value ≡ expected)
    → decode_value (encode_entitlement value).value_kind expected (encode_entitlement value)
      ≡ ok value
unfolding encode_entitlement
decode_value-encode to_be_decided expected fit = refl
decode_value-encode (switched b) expected (inl e) = cc
decode_value-encode (switched b) expected (inr e) = rw (← e) refl
decode_value-encode (unlimited counted) expected (inl e) = cc
decode_value-encode (unlimited counted) expected (inr e) = rw (← e) refl
decode_value-encode (unlimited measured) expected (inl e) = cc
decode_value-encode (unlimited measured) expected (inr e) = rw (← e) refl
decode_value-encode (limited counted n) expected (inl e) = cc
decode_value-encode (limited counted n) expected (inr e) = rw (← e) refl
decode_value-encode (limited measured n) expected (inl e) = cc
decode_value-encode (limited measured n) expected (inr e) = rw (← e) refl

-- A value that fits its key is decoded from what it is encoded as.
pub decode_entitlement-encode :
    (key : PlanEntitlementKey) (value : EntitlementValue)
    → IsFit key value
    → decode_entitlement (some key) (encode_entitlement value)
      ≡ ok (record { key = key; value = value })
unfolding decode_entitlement
decode_entitlement-encode key value fit =
    rw (decode_value-encode value (expected_kind_for_key key) fit) refl

decode_value_fits :
    (kind expected : EntitlementValueKind) (row : EncodedEntitlement) (value : EntitlementValue)
    → decode_value kind expected row ≡ ok value
    → (kind_of value ≡ tbd) ⊎ (kind_of value ≡ expected)
decode_value_fits tbd expected row value h = ground arith
decode_value_fits boolean expected row value h = ground arith
decode_value_fits count expected row value h = ground arith
decode_value_fits bytes expected row value h = ground arith

-- Whatever is in a row, a value that is decoded from it fits its key.
pub decode_entitlement-IsFit :
    (key : Option PlanEntitlementKey) (row : EncodedEntitlement) (e : PlanEntitlementRecord)
    → decode_entitlement key row ≡ ok e
    → (key ≡ some e.key) × IsFit e.key e.value
unfolding decode_entitlement
decode_entitlement-IsFit none row e h = cc
decode_entitlement-IsFit (some k) row e h =
    let (value, decoded, h1) =
      >>=-returns (decode_value row.value_kind (expected_kind_for_key k) row) _ h in
    let same : record { key = k; value = value } ≡ e = ok-injective h1 in
    rw (← same) (refl, decode_value_fits row.value_kind (expected_kind_for_key k) row value decoded)
