-- ===== src/Device/Dashboard.antt =====
-- What a user has shown who changes a device on the dashboard.
use verstak_sync_server.Prelude.{String, ◌==◌, if◌then◌else◌}
use verstak_sync_server.Server.World.{World}
use verstak_sync_server.Server.Reply.{Reply, json_err_code}
use verstak_sync_server.Server.Request.{Request, JsonBody}
use verstak_sync_server.Server.Action.{M, ◌>>◌, stop_if}
use verstak_sync_server.Device.Forms.{
  limit_attempts, check_password, check_device, form_request, wrong_password,
}

module _ (r : Request) (body : JsonBody String) (subject id : String) where
  abbrev empty_answer : Reply
  empty_answer = if form_request r then wrong_password else json_err_code 400 "invalid_request"

  abbrev after_limit : String → M (Unit {0})
  after_limit password = check_password r subject password >> check_device subject id

  abbrev after_password : String → M (Unit {0})
  after_password password =
      stop_if (password == "") empty_answer >> (limit_attempts r subject >> after_limit password)
