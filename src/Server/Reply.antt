-- ===== src/Server/Reply.antt =====
-- The answers: a status, the machine-readable code of an error, and the value that is encoded.
-- Headers, and the texts of messages, are left out.
use verstak_sync_server.Prelude.{ℕ, String, Bool, List, eqb, if◌then◌else◌}
use verstak_sync_server.Schema.{DeviceRow}

-- The maps that handleSyncPush and handleSyncPull answer with.
pub record Conflict : Type 0 where
  pub op_id : String
  pub device_id : String
  pub op_type : String
  pub server_sequence : ℕ
  pub entity_type : String
  pub entity_id : String

pub record PushResponse : Type 0 where
  pub accepted : List String
  pub count : ℕ
  pub conflicts : List Conflict

pub record OpDto : Type 0 where
  pub op_id : String
  pub server_sequence : ℕ
  pub device_id : String
  pub entity_type : String
  pub entity_id : String
  pub op_type : String
  pub payload_json : String
  pub created_at : String

pub record PullResponse : Type 0 where
  pub server_sequence : ℕ
  pub page_last_sequence : ℕ
  pub has_more : Bool
  pub ops : List OpDto

-- What a handler encodes: `raw` is text that is written as it is, `page` a template's name,
-- `location` a redirect's target.
pub data Body : Type 0 where
  nothing : Body
  pushed : PushResponse → Body
  pulled : PullResponse → Body
  raw : String → Body
  paired : String → String → String → ℕ → Body
  registered : String → String → Body
  logged_in : String → String → Body
  stored : String → ℕ → Body
  contents : List ℕ → Body
  status_is : String → Body
  device_is : String → DeviceRow → Body
  secret_is : String → Body
  blocked_is : Bool → Body
  user_is : String → Body
  page : String → String → Body
  location : String → Body

pub record Reply : Type 0 where
  pub status : ℕ
  pub code : String
  pub body : Body

-- jsonOK
abbrev pub json_ok : Body → Reply
json_ok b = record { status = 200; code = ""; body = b }

-- jsonErrCode
abbrev pub json_err_code : ℕ → String → Reply
json_err_code status code = record { status = status; code = code; body = nothing }

-- defaultErrorCode
unfoldable pub default_error_code : ℕ → String
default_error_code status =
    if eqb status 400
    then "invalid_request"
    else if eqb status 401
    then "unauthorized"
    else if eqb status 403
    then "forbidden"
    else if eqb status 404
    then "not_found"
    else if eqb status 405
    then "method_not_allowed"
    else if eqb status 413
    then "request_too_large"
    else if eqb status 429
    then "rate_limited"
    else "internal_error"

-- jsonErr
abbrev pub json_err : ℕ → Reply
json_err status = json_err_code status (default_error_code status)

-- jsonInternalError
abbrev pub internal_error : Reply
internal_error = json_err 500

-- methodNotAllowed
abbrev pub method_not_allowed : Reply
method_not_allowed = json_err_code 405 "method_not_allowed"

-- http.Redirect
abbrev pub redirect : ℕ → String → Reply
redirect status target = record { status = status; code = ""; body = location target }
