-- ===== src/Tests/Sync.antt =====
-- The sync protocol at concrete inputs.
use verstak_sync_server.Prelude.{
  ◌≡◌, refl, ◌⊎◌, ◌++◌, false, none, [], ◌∷◌, arith, pos, map, trim_space, take, drop, length, ◌≤◌,
  ◌↔◌, exceeds, len, All, magnitude,
}
use verstak_sync_server.Config.{default_limits}
use verstak_sync_server.Server.World.{stamp}
use verstak_sync_server.Server.Reply.{json_ok, raw, pulled, pushed, internal_error}
use verstak_sync_server.Server.Action.{answer}
use verstak_sync_server.Server.Faults.{quiet}
use verstak_sync_server.Blob.Owned.{references_error}
use verstak_sync_server.Sync.Contract.{
  validate_sync_push, operations_error, PullRequest, pull_page_limit, max_device_id_length,
  max_idempotency_key_length, fields_error, field_error, too_long, payload_error,
}
use verstak_sync_server.Sync.Push.Steps.{
  conflicts_of, insert_or_ignore, insert_revision, set_sequence, replace_tombstone,
}
use verstak_sync_server.Sync.Push.Handler.{push_scoped}
use verstak_sync_server.Sync.Push.Atomic.{push_all_or_nothing}
use verstak_sync_server.Sync.Push.Model.{push_all_progress, ids_of}
use verstak_sync_server.Sync.Push.Outcome.{push_response}
use verstak_sync_server.Sync.Push.Replay.{IsNew, push_twice}
use verstak_sync_server.Sync.Pull.{pending_rows, to_dto, pull_scoped, last_sequence}
use verstak_sync_server.Sync.Log.{LogIsValid}
use verstak_sync_server.Sync.Paging.{drain, drain_complete, rest-after_page}
use verstak_sync_server.Sync.Push.Promise.{promised}
use verstak_sync_server.Sync.Push.Kept.{push_scoped-promised}
use verstak_sync_server.Sync.Delivery.{
  push_scoped-LogIsValid, push_isolated, push_delivered, push_accepted, added_rows, new_ids,
  up_to_date-conflicts,
}
use verstak_sync_server.Sync.Answers.{pull_answers_page, promised_page}
use verstak_sync_server.Sync.Validation.{validate_sync_push_iff, IsAcceptable}
use verstak_sync_server.Tests.Fixtures.{
  plain_host, laptop, phone, stranger, note, request, log_db, world,
}

log-IsValid : LogIsValid log_db
log-IsValid = record {
  ordered = (refl, omega arith, (refl, omega arith, omega arith));
  distinct = (refl, (refl, tt));
}

-- The repeated id is taken once, and the two new operations are accepted.
pushed_ids : (push_response laptop request 100 log_db).accepted ≡ "a" ∷ "b" ∷ []
unfolding push_all_progress insert_or_ignore set_sequence insert_revision replace_tombstone
pushed_ids = refl

push_scoped-promised_example :
    let (reply, after) = answer (push_scoped laptop request) (quiet world) in
    (reply, after.db) ≡ promised world laptop request
push_scoped-promised_example = push_scoped-promised laptop request world log-IsValid

push_all_or_nothing_example :
    let (reply, after) = answer (push_scoped laptop request) world in
    let (calm_reply, calm_after) = answer (push_scoped laptop request) (quiet world) in
    ((reply ≡ internal_error) × (after.db ≡ world.db))
    ⊎ ((reply ≡ calm_reply) × (after.db ≡ calm_after.db))
push_all_or_nothing_example = push_all_or_nothing laptop request world

drain_complete_example : drain 3 laptop log_db 1 0 ≡ map to_dto (pending_rows laptop (pos 0) log_db)
unfolding pending_rows
drain_complete_example = drain_complete 3 laptop log_db 1 0 log-IsValid (omega arith) (omega arith)

request-IsNew : IsNew world laptop request
unfolding validate_sync_push operations_error fields_error field_error too_long payload_error
    trim_space references_error
request-IsNew = record { valid = refl; owned = refl; unknown = refl; keyed = refl }

push_twice_example :
    let resp = push_response laptop request (stamp world.now) world.db in
    let (reply, after) = answer (push_scoped laptop request) (quiet world) in
    let (again, after_again) =
      answer
        (push_scoped laptop request)
        (quiet (record world { db = after.db; now = 5; step = 9 })) in
    (reply ≡ json_ok (pushed resp))
    × (again ≡ json_ok (raw (world.host.marshal_push resp)))
    × (after_again.db ≡ after.db)
push_twice_example = push_twice world laptop request 5 9 request-IsNew

-- Without faults the request is answered with a response of its own.
request_answered :
    (answer (push_scoped laptop request) (quiet world)).0
    ≡ json_ok (pushed (push_response laptop request (stamp world.now) world.db))
request_answered = (push_twice world laptop request 5 9 request-IsNew).0

push_delivered_example :
    pending_rows phone (pos 2) (answer (push_scoped laptop request) (quiet world)).1.db
    ≡ pending_rows phone (pos 2) world.db ++ added_rows laptop request (stamp world.now) world.db
push_delivered_example =
    push_delivered laptop phone request (quiet world) 2
      (push_response laptop request (stamp world.now) world.db) log-IsValid refl refl (omega arith)
      request_answered

push_isolated_example :
    pending_rows stranger (pos 0) (answer (push_scoped laptop request) (quiet world)).1.db
    ≡ pending_rows stranger (pos 0) world.db
push_isolated_example = push_isolated laptop stranger request (quiet world) 0 log-IsValid refl

push_scoped-LogIsValid_example : LogIsValid (answer (push_scoped laptop request) (quiet world)).1.db
push_scoped-LogIsValid_example = push_scoped-LogIsValid laptop request (quiet world) log-IsValid

validate_sync_push_iff_example : (validate_sync_push plain_host default_limits request ≡ none) ↔ (
    (exceeds (length request.ops) default_limits.max_push_operations ≡ false)
    × (len request.device_id ≤ max_device_id_length)
    × (len request.idempotency_key ≤ max_idempotency_key_length)
    × All (IsAcceptable plain_host default_limits) request.ops)
validate_sync_push_iff_example = validate_sync_push_iff plain_host default_limits request

push_accepted_example :
    let resp = push_response laptop request (stamp world.now) world.db in
    (resp.accepted ≡ new_ids (ids_of world.db.ops) request.ops)
    × (resp.count ≡ length (new_ids (ids_of world.db.ops) request.ops))
push_accepted_example =
    push_accepted laptop request (quiet world)
      (push_response laptop request (stamp world.now) world.db) request_answered

up_to_date-conflicts_example : conflicts_of laptop (note "c" "update" 3) log_db ≡ []
up_to_date-conflicts_example =
    up_to_date-conflicts laptop (note "c" "update" 3) log_db 3 log-IsValid refl (omega arith)

rest-after_page_example :
    pending_rows laptop
      (pos (last_sequence 0 (map to_dto (take 1 (pending_rows laptop (pos 0) log_db)))))
      log_db
    ≡ drop 1 (pending_rows laptop (pos 0) log_db)
rest-after_page_example = rest-after_page laptop log_db log-IsValid 0 1

abbrev pull : PullRequest
pull = record { since_sequence = pos 1; page_limit = pos 5 }

pull_answers_page_example :
    let (reply, after) = answer (pull_scoped laptop pull) (quiet world) in
    let limit = magnitude (pull_page_limit world.cfg.limits pull.page_limit) in
    (reply ≡ json_ok (pulled (promised_page laptop world.db 1 limit))) × (after.db ≡ world.db)
pull_answers_page_example = pull_answers_page laptop pull world 1 log-IsValid refl refl
