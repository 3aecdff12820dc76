-- ===== src/Billing/Entitlements.antt =====
-- packages/billing/src/entitlements.ts: what a plan entitles to, and how it is stored.
pub mod Storage
use vimla_ai.Common.{ℕ, Bool, true, false, Option, none, some, List, [], ◌∷◌, ◌==◌, if◌then◌else◌}
use vimla_ai.Common.Int.{ℤ, pos, ltb_ℤ}
use vimla_ai.Billing.Result.{Result, ok, err, ◌>>=◌, or_throw}

pub data PlanEntitlementKey : Type 0 where
  projects_max projects_members_per_project projects_owned_active_max : PlanEntitlementKey
  projects_external_active_max projects_members_per_owned_project_max : PlanEntitlementKey
  ai_manual_model_selection ai_auto_minimum ai_auto_medium ai_auto_maximum : PlanEntitlementKey
  storage_max_bytes billing_topup_allowed : PlanEntitlementKey

-- The position in `PLAN_ENTITLEMENT_KEYS`, by which keys are compared.
abbrev pub key_index : PlanEntitlementKey → ℕ
key_index projects_max = 0
key_index projects_members_per_project = 1
key_index projects_owned_active_max = 2
key_index projects_external_active_max = 3
key_index projects_members_per_owned_project_max = 4
key_index ai_manual_model_selection = 5
key_index ai_auto_minimum = 6
key_index ai_auto_medium = 7
key_index ai_auto_maximum = 8
key_index storage_max_bytes = 9
key_index billing_topup_allowed = 10

pub data EntitlementValueKind : Type 0 where
  count bytes boolean tbd : EntitlementValueKind

pub data AmountKind : Type 0 where
  counted measured : AmountKind

pub data EntitlementValue : Type 0 where
  unlimited : AmountKind → EntitlementValue
  limited : AmountKind → ℤ → EntitlementValue
  switched : Bool → EntitlementValue
  to_be_decided : EntitlementValue

pub record PlanEntitlementRecord : Type 0 where
  pub key : PlanEntitlementKey
  pub value : EntitlementValue

pub data EntitlementError : Type 0 where
  unknown_key deprecated_key wrong_kind missing_boolean missing_limit : EntitlementError

-- `KEY_KIND`.
abbrev pub expected_kind_for_key : PlanEntitlementKey → EntitlementValueKind
expected_kind_for_key ai_manual_model_selection = boolean
expected_kind_for_key ai_auto_minimum = tbd
expected_kind_for_key ai_auto_medium = tbd
expected_kind_for_key ai_auto_maximum = tbd
expected_kind_for_key storage_max_bytes = bytes
expected_kind_for_key billing_topup_allowed = boolean
expected_kind_for_key _ = count

abbrev pub is_deprecated_project_entitlement_key : PlanEntitlementKey → Bool
is_deprecated_project_entitlement_key projects_max = true
is_deprecated_project_entitlement_key projects_members_per_project = true
is_deprecated_project_entitlement_key _ = false

-- A key is a string; `none` stands for one that is not known.
unfoldable pub assert_writable_entitlement_key :
    Option PlanEntitlementKey → Result EntitlementError PlanEntitlementKey
assert_writable_entitlement_key key = do
  known ← or_throw key unknown_key
  if is_deprecated_project_entitlement_key known then err deprecated_key else ok known

abbrev pub kind_of_amount : AmountKind → EntitlementValueKind
kind_of_amount counted = count
kind_of_amount measured = bytes

-- The columns in which a value is stored.
pub record EncodedEntitlement : Type 0 where
  pub value_kind : EntitlementValueKind
  pub is_unlimited : Bool
  pub int_value : Option ℤ
  pub bool_value : Option Bool

unfoldable pub encode_entitlement : EntitlementValue → EncodedEntitlement
encode_entitlement to_be_decided = record {
  value_kind = tbd;
  is_unlimited = false;
  int_value = none;
  bool_value = none;
}
encode_entitlement (switched b) = record {
  value_kind = boolean;
  is_unlimited = false;
  int_value = none;
  bool_value = some b;
}
encode_entitlement (unlimited k) = record {
  value_kind = kind_of_amount k;
  is_unlimited = true;
  int_value = none;
  bool_value = none;
}
encode_entitlement (limited k n) = record {
  value_kind = kind_of_amount k;
  is_unlimited = false;
  int_value = some n;
  bool_value = none;
}

-- What `decodeEntitlement` reads of a boolean and of an amount.
abbrev pub decode_switch : Option Bool → Result EntitlementError EntitlementValue
decode_switch none = err missing_boolean
decode_switch (some b) = ok (switched b)

abbrev pub decode_limit : AmountKind → Option ℤ → Result EntitlementError EntitlementValue
decode_limit k none = err missing_limit
decode_limit k (some n) = ok (limited k n)

abbrev pub decode_amount :
    AmountKind → EncodedEntitlement → Result EntitlementError EntitlementValue
decode_amount k row = if row.is_unlimited then ok (unlimited k) else decode_limit k row.int_value

-- By the kind in the row, and the kind that the key expects.
abbrev pub decode_value :
    EntitlementValueKind
    → EntitlementValueKind
    → EncodedEntitlement
    → Result EntitlementError EntitlementValue
decode_value tbd expected row = ok to_be_decided
decode_value boolean boolean row = decode_switch row.bool_value
decode_value count count row = decode_amount counted row
decode_value bytes bytes row = decode_amount measured row
decode_value _ _ row = err wrong_kind

-- A kind that is none of the four is refused like a wrong one, so the row's kind is one of them.
unfoldable pub decode_entitlement :
    Option PlanEntitlementKey → EncodedEntitlement → Result EntitlementError PlanEntitlementRecord
decode_entitlement key row = do
  known ← or_throw key unknown_key
  value ← decode_value row.value_kind (expected_kind_for_key known) row
  ok (record { key = known; value = value })

-- `entitlements.find((item) => item.key === key)`
unfoldable pub find_entitlement :
    PlanEntitlementKey → List PlanEntitlementRecord → Option PlanEntitlementRecord
find_entitlement key [] = none
find_entitlement key (e ∷ es) =
    if key_index e.key == key_index key then some e else find_entitlement key es

abbrev pub topup_of : Option PlanEntitlementRecord → Bool
topup_of none = true
topup_of (some e) = elim e.value [ switched b ↦ b | _ ↦ true ]

unfoldable pub is_topup_allowed : List PlanEntitlementRecord → Bool
is_topup_allowed entitlements = topup_of (find_entitlement billing_topup_allowed entitlements)

pub record CountLimit : Type 0 where
  pub is_unlimited_count : Bool
  pub limit : ℤ

abbrev pub unlimited_count : CountLimit
unlimited_count = record { is_unlimited_count = true; limit = pos 0 }

abbrev pub at_most : ℤ → CountLimit
at_most n = record { is_unlimited_count = false; limit = n }

pub record ProjectEntitlementLimits : Type 0 where
  pub owned_active_max : CountLimit
  pub external_active_max : CountLimit
  pub members_per_owned_project_max : CountLimit

pub data EntitlementSource : Type 0 where
  subscription free_fallback : EntitlementSource

-- `fallback?.… ?? unlimitedCount()`
abbrev pub fallback_limit : EntitlementSource → ℤ → CountLimit
fallback_limit subscription n = unlimited_count
fallback_limit free_fallback n = at_most n

abbrev pub count_of : Option PlanEntitlementRecord → CountLimit → CountLimit
count_of none fallback = fallback
count_of (some e) fallback = elim e.value [
  | unlimited counted ↦ unlimited_count
  | limited counted n ↦ at_most n
  | _ ↦ fallback
]

unfoldable pub read_count_limit :
    List PlanEntitlementRecord → PlanEntitlementKey → CountLimit → CountLimit
read_count_limit entitlements key fallback = count_of (find_entitlement key entitlements) fallback

unfoldable pub project_entitlement_limits :
    List PlanEntitlementRecord → EntitlementSource → ProjectEntitlementLimits
project_entitlement_limits entitlements source = record {
  owned_active_max =
      read_count_limit entitlements projects_owned_active_max (fallback_limit source (pos 1));
  external_active_max =
      read_count_limit entitlements projects_external_active_max (fallback_limit source (pos 2));
  members_per_owned_project_max =
      read_count_limit entitlements projects_members_per_owned_project_max
        (fallback_limit source (pos 2));
}

unfoldable pub is_within_count_limit : CountLimit → ℕ → Bool
is_within_count_limit l used = if l.is_unlimited_count then true else ltb_ℤ (pos used) l.limit

unfoldable pub count_limit_value : CountLimit → Option ℤ
count_limit_value l = if l.is_unlimited_count then none else some l.limit
