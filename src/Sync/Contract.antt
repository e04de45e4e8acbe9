-- ===== src/Sync/Contract.antt =====
-- internal/server/sync_contract.go: what a push may hold. Of an error only its code is kept; a
-- missing code is the source's empty one.
use verstak_sync_server.Prelude.{
  ℕ, String, len, Bool, true, false, ◌&&◌, ◌||◌, not, Option, none, some, List, [], ◌∷◌, ℤ,
  is_negative, is_nonpositive, exceeds, ltb_ℤ, ltb, ◌==◌, if◌then◌else◌, trim_space, length,
}
use verstak_sync_server.Config.{Limits}
use verstak_sync_server.Server.World.{Host}

pub record PushOperation : Type 0 where
  pub op_id : String
  pub entity_type : String
  pub entity_id : String
  pub op_type : String
  pub payload_json : String
  pub client_sequence : ℤ
  pub last_seen_server_seq : ℤ
  pub created_at : String

pub record PushRequest : Type 0 where
  pub device_id : String
  pub idempotency_key : String
  pub ops : List PushOperation

pub record PullRequest : Type 0 where
  pub since_sequence : ℤ
  pub page_limit : ℤ

abbrev pub max_op_id_length : ℕ
max_op_id_length = 128

abbrev pub max_entity_type_length : ℕ
max_entity_type_length = 64

abbrev pub max_entity_id_length : ℕ
max_entity_id_length = 4096

abbrev pub max_op_type_length : ℕ
max_op_type_length = 64

abbrev pub max_idempotency_key_length : ℕ
max_idempotency_key_length = 128

abbrev pub max_device_id_length : ℕ
max_device_id_length = 128

abbrev pub max_device_name_length : ℕ
max_device_name_length = 128

abbrev pub max_client_version_length : ℕ
max_client_version_length = 256

abbrev pub max_vault_id_length : ℕ
max_vault_id_length = 256

abbrev pub max_login_length : ℕ
max_login_length = 320

-- The first code of two checks made in turn.
abbrev pub or_else : Option String → Option String → Option String
or_else none next = next
or_else (some code) next = some code

abbrev pub code_if : Bool → String → Option String
code_if true code = some code
code_if false code = none

-- validateStringLength
unfoldable pub too_long : String → ℕ → Bool
too_long value max = ltb max (len value)

-- One field of an operation: present, and not too long.
unfoldable pub field_error : String → ℕ → Option String
unfolding too_long
field_error value max =
    or_else (code_if (trim_space value == "") "invalid_operation")
      (code_if (too_long value max) "field_too_long")

unfoldable pub fields_error : List (String × ℕ) → Option String
unfolding field_error
fields_error [] = none
fields_error ((value, max) ∷ rest) = or_else (field_error value max) (fields_error rest)

abbrev pub named_fields : PushOperation → List (String × ℕ)
named_fields op =
    (op.op_id, max_op_id_length)
    ∷ (op.entity_type, max_entity_type_length)
    ∷ (op.entity_id, max_entity_id_length)
    ∷ (op.op_type, max_op_type_length)
    ∷ []

unfoldable pub payload_error : Host → Limits → PushOperation → Option String
payload_error host limits op =
    or_else (code_if (exceeds (len op.payload_json) limits.max_payload_json) "payload_too_large") (
      or_else
        (code_if (not (op.payload_json == "") && not (host.json_valid op.payload_json))
          "invalid_payload")
        (code_if (is_negative op.client_sequence || is_negative op.last_seen_server_seq)
          "invalid_operation"))

unfoldable pub operations_error : Host → Limits → List PushOperation → Option String
unfolding fields_error payload_error
operations_error host limits [] = none
operations_error host limits (op ∷ ops) =
    or_else (fields_error (named_fields op))
      (or_else (payload_error host limits op) (operations_error host limits ops))

-- validateSyncPush. The two fields of the request are looked at in any order, and give one code.
unfoldable pub validate_sync_push : Host → Limits → PushRequest → Option String
unfolding operations_error too_long
validate_sync_push host limits req =
    or_else (code_if (exceeds (length req.ops) limits.max_push_operations) "too_many_operations") (
      or_else (code_if (too_long req.device_id max_device_id_length) "field_too_long") (
        or_else (code_if (too_long req.idempotency_key max_idempotency_key_length) "field_too_long")
          (operations_error host limits req.ops)))

-- pullPageLimit
unfoldable pub pull_page_limit : Limits → ℤ → ℤ
pull_page_limit limits requested =
    if is_nonpositive requested || ltb_ℤ limits.max_pull_page requested
    then limits.max_pull_page
    else requested
