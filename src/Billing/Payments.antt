-- ===== src/Billing/Payments.antt =====
-- packages/billing/src/payment-states.ts: the statuses of a payment and what a provider reports.
use vimla_ai.Common.{Option, none, some}

pub data PaymentStatus : Type 0 where
  created pending succeeded failed canceled refunded partially_refunded reconciliation_required :
      PaymentStatus

pub data TBankPaymentStatus : Type 0 where
  new form_showed authorizing three_ds_checking three_ds_checked authorized : TBankPaymentStatus
  confirming confirmed reversing partial_reversed reversed refunding : TBankPaymentStatus
  partial_refunded refunded canceled rejected deadline_expired auth_fail : TBankPaymentStatus

pub data ProviderMoneyEvent : Type 0 where
  ignore pending confirmed failed canceled refunded partially_refunded : ProviderMoneyEvent

-- `none` stands for a string that is none of the statuses, whatever its case.
unfoldable pub classify_tbank_status : Option TBankPaymentStatus → ProviderMoneyEvent
classify_tbank_status none = ignore
classify_tbank_status (some TBankPaymentStatus.new) = ProviderMoneyEvent.pending
classify_tbank_status (some TBankPaymentStatus.form_showed) = ProviderMoneyEvent.pending
classify_tbank_status (some TBankPaymentStatus.authorizing) = ProviderMoneyEvent.pending
classify_tbank_status (some TBankPaymentStatus.three_ds_checking) = ProviderMoneyEvent.pending
classify_tbank_status (some TBankPaymentStatus.three_ds_checked) = ProviderMoneyEvent.pending
classify_tbank_status (some TBankPaymentStatus.authorized) = ProviderMoneyEvent.pending
classify_tbank_status (some TBankPaymentStatus.confirming) = ProviderMoneyEvent.pending
classify_tbank_status (some TBankPaymentStatus.confirmed) = ProviderMoneyEvent.confirmed
classify_tbank_status (some TBankPaymentStatus.reversing) = ProviderMoneyEvent.ignore
classify_tbank_status (some TBankPaymentStatus.partial_reversed) = ProviderMoneyEvent.canceled
classify_tbank_status (some TBankPaymentStatus.reversed) = ProviderMoneyEvent.canceled
classify_tbank_status (some TBankPaymentStatus.refunding) = ProviderMoneyEvent.ignore
classify_tbank_status (some TBankPaymentStatus.partial_refunded) =
    ProviderMoneyEvent.partially_refunded
classify_tbank_status (some TBankPaymentStatus.refunded) = ProviderMoneyEvent.refunded
classify_tbank_status (some TBankPaymentStatus.canceled) = ProviderMoneyEvent.canceled
classify_tbank_status (some TBankPaymentStatus.rejected) = ProviderMoneyEvent.failed
classify_tbank_status (some TBankPaymentStatus.deadline_expired) = ProviderMoneyEvent.failed
classify_tbank_status (some TBankPaymentStatus.auth_fail) = ProviderMoneyEvent.failed

-- The cases of `nextDomainStatus`, one function for each event; `none` leaves the status as it is.
abbrev pub when_pending : PaymentStatus → Option PaymentStatus
when_pending PaymentStatus.created = some PaymentStatus.pending
when_pending _ = none

abbrev pub when_confirmed : PaymentStatus → Option PaymentStatus
when_confirmed PaymentStatus.created = some PaymentStatus.succeeded
when_confirmed PaymentStatus.pending = some PaymentStatus.succeeded
when_confirmed _ = none

abbrev pub when_failed : PaymentStatus → Option PaymentStatus
when_failed PaymentStatus.succeeded = none
when_failed PaymentStatus.refunded = none
when_failed PaymentStatus.partially_refunded = none
when_failed PaymentStatus.reconciliation_required = none
when_failed PaymentStatus.canceled = none
when_failed _ = some PaymentStatus.failed

abbrev pub when_canceled : PaymentStatus → Option PaymentStatus
when_canceled PaymentStatus.succeeded = none
when_canceled PaymentStatus.refunded = none
when_canceled PaymentStatus.partially_refunded = none
when_canceled PaymentStatus.failed = none
when_canceled _ = some PaymentStatus.canceled

abbrev pub when_refunded : PaymentStatus → Option PaymentStatus
when_refunded PaymentStatus.created = some PaymentStatus.canceled
when_refunded PaymentStatus.pending = some PaymentStatus.canceled
when_refunded PaymentStatus.failed = none
when_refunded PaymentStatus.canceled = none
when_refunded _ = some PaymentStatus.refunded

abbrev pub when_partially_refunded : PaymentStatus → Option PaymentStatus
when_partially_refunded PaymentStatus.succeeded = some PaymentStatus.partially_refunded
when_partially_refunded PaymentStatus.partially_refunded = some PaymentStatus.partially_refunded
when_partially_refunded _ = none

unfoldable pub next_domain_status : PaymentStatus → ProviderMoneyEvent → Option PaymentStatus
next_domain_status current ProviderMoneyEvent.ignore = when_pending current
next_domain_status current ProviderMoneyEvent.pending = when_pending current
next_domain_status current ProviderMoneyEvent.confirmed = when_confirmed current
next_domain_status current ProviderMoneyEvent.failed = when_failed current
next_domain_status current ProviderMoneyEvent.canceled = when_canceled current
next_domain_status current ProviderMoneyEvent.refunded = when_refunded current
next_domain_status current ProviderMoneyEvent.partially_refunded = when_partially_refunded current
