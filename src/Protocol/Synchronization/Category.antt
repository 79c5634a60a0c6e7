-- ===== src/Protocol/Synchronization/Category.antt =====
-- crates/device-protocol/src/synchronization.rs: the failure categories and their stable names.
use transit_guard.Base.{◌^◌, ◌<◌, ◌≡◌, refl, sym, ap, ◌∙◌, String, Option, some, none, arith}
use transit_guard.Base.Tests.{if◌then◌else◌, some-injective}
use transit_guard.Base.Sequence.{length}
use transit_guard.Base.Text.{as_bytes}
use text.Mathlib.Text.{◌==◌}

pub data SynchronizationFailureCategory : Type 0 where
  network_timeout connection_failure response_decode_failure : SynchronizationFailureCategory
  payload_too_large unsupported_protocol : SynchronizationFailureCategory
  reader_not_registered reader_not_operational : SynchronizationFailureCategory
  environment_mismatch batch_identity_conflict : SynchronizationFailureCategory
  batch_range_mismatch entry_order_mismatch : SynchronizationFailureCategory
  transaction_identity_conflict backend_temporarily_unavailable : SynchronizationFailureCategory
  backend_validation_failure manual_review_required : SynchronizationFailureCategory

unfoldable pub category_as_str : SynchronizationFailureCategory → String
category_as_str SynchronizationFailureCategory.network_timeout = "network_timeout"
category_as_str SynchronizationFailureCategory.connection_failure = "connection_failure"
category_as_str SynchronizationFailureCategory.response_decode_failure = "response_decode_failure"
category_as_str SynchronizationFailureCategory.payload_too_large = "payload_too_large"
category_as_str SynchronizationFailureCategory.unsupported_protocol = "unsupported_protocol"
category_as_str SynchronizationFailureCategory.reader_not_registered = "reader_not_registered"
category_as_str SynchronizationFailureCategory.reader_not_operational = "reader_not_operational"
category_as_str SynchronizationFailureCategory.environment_mismatch = "environment_mismatch"
category_as_str SynchronizationFailureCategory.batch_identity_conflict = "batch_identity_conflict"
category_as_str SynchronizationFailureCategory.batch_range_mismatch = "batch_range_mismatch"
category_as_str SynchronizationFailureCategory.entry_order_mismatch = "entry_order_mismatch"
category_as_str SynchronizationFailureCategory.transaction_identity_conflict =
    "transaction_identity_conflict"
category_as_str SynchronizationFailureCategory.backend_temporarily_unavailable =
    "backend_temporarily_unavailable"
category_as_str SynchronizationFailureCategory.backend_validation_failure =
    "backend_validation_failure"
category_as_str SynchronizationFailureCategory.manual_review_required = "manual_review_required"

-- What serde reads under `rename_all = "snake_case"`: the category of a name.
unfoldable pub category_named : String → Option SynchronizationFailureCategory
category_named name =
    if name == "network_timeout"
    then some SynchronizationFailureCategory.network_timeout
    else if name == "connection_failure"
    then some SynchronizationFailureCategory.connection_failure
    else if name == "response_decode_failure"
    then some SynchronizationFailureCategory.response_decode_failure
    else if name == "payload_too_large"
    then some SynchronizationFailureCategory.payload_too_large
    else if name == "unsupported_protocol"
    then some SynchronizationFailureCategory.unsupported_protocol
    else if name == "reader_not_registered"
    then some SynchronizationFailureCategory.reader_not_registered
    else if name == "reader_not_operational"
    then some SynchronizationFailureCategory.reader_not_operational
    else if name == "environment_mismatch"
    then some SynchronizationFailureCategory.environment_mismatch
    else if name == "batch_identity_conflict"
    then some SynchronizationFailureCategory.batch_identity_conflict
    else if name == "batch_range_mismatch"
    then some SynchronizationFailureCategory.batch_range_mismatch
    else if name == "entry_order_mismatch"
    then some SynchronizationFailureCategory.entry_order_mismatch
    else if name == "transaction_identity_conflict"
    then some SynchronizationFailureCategory.transaction_identity_conflict
    else if name == "backend_temporarily_unavailable"
    then some SynchronizationFailureCategory.backend_temporarily_unavailable
    else if name == "backend_validation_failure"
    then some SynchronizationFailureCategory.backend_validation_failure
    else if name == "manual_review_required"
    then some SynchronizationFailureCategory.manual_review_required
    else none

-- The name that `as_str` gives is the one that serde reads.
pub category_named-as_str :
    (category : SynchronizationFailureCategory)
    → category_named (category_as_str category) ≡ some category
unfolding category_named category_as_str
category_named-as_str SynchronizationFailureCategory.network_timeout = refl
category_named-as_str SynchronizationFailureCategory.connection_failure = refl
category_named-as_str SynchronizationFailureCategory.response_decode_failure = refl
category_named-as_str SynchronizationFailureCategory.payload_too_large = refl
category_named-as_str SynchronizationFailureCategory.unsupported_protocol = refl
category_named-as_str SynchronizationFailureCategory.reader_not_registered = refl
category_named-as_str SynchronizationFailureCategory.reader_not_operational = refl
category_named-as_str SynchronizationFailureCategory.environment_mismatch = refl
category_named-as_str SynchronizationFailureCategory.batch_identity_conflict = refl
category_named-as_str SynchronizationFailureCategory.batch_range_mismatch = refl
category_named-as_str SynchronizationFailureCategory.entry_order_mismatch = refl
category_named-as_str SynchronizationFailureCategory.transaction_identity_conflict = refl
category_named-as_str SynchronizationFailureCategory.backend_temporarily_unavailable = refl
category_named-as_str SynchronizationFailureCategory.backend_validation_failure = refl
category_named-as_str SynchronizationFailureCategory.manual_review_required = refl

-- Two categories have two names.
pub category_as_str-injective :
    (a b : SynchronizationFailureCategory) → category_as_str a ≡ category_as_str b → a ≡ b
category_as_str-injective a b h =
    some-injective (sym (category_named-as_str a) ∙ ap category_named h ∙ category_named-as_str b)

-- A name is short.
pub category_as_str-fits :
    (c : SynchronizationFailureCategory) → length (as_bytes (category_as_str c)) < 2 ^ 64
unfolding category_as_str as_bytes
category_as_str-fits SynchronizationFailureCategory.network_timeout = omega arith
category_as_str-fits _ = omega arith
