-- ===== src/Sync/Pull.antt =====
-- internal/server/handlers_api.go, handleSyncPull.
use verstak_sync_server.Prelude.{
  ℕ, ◌+◌, Bool, ◌&&◌, ◌||◌, not, List, [], ◌∷◌, map, ℤ, is_negative, magnitude, ltb, ◌==◌,
  if◌then◌else◌, select, take, length, max,
}
use verstak_sync_server.Schema.{Db, OpRow}
use verstak_sync_server.Server.Reply.{
  Reply, OpDto, PullResponse, pulled, json_ok, json_err_code, method_not_allowed,
}
use verstak_sync_server.Server.Request.{Request, JsonBody, decode_json_body}
use verstak_sync_server.Server.Action.{M, ◌>>=◌, ◌>>◌, pure, gets, stop_if, query_all}
use verstak_sync_server.Device.Auth.{AuthenticatedDevice, require_sync_scope}
use verstak_sync_server.Sync.Contract.{PullRequest, pull_page_limit}
use verstak_sync_server.Sync.Push.Steps.{sequence_of, sequence_above, order_by_sequence, in_scope}

abbrev pub to_dto : OpRow → OpDto
to_dto r = record {
  op_id = r.op_id;
  server_sequence = sequence_of r;
  device_id = r.device_id;
  entity_type = r.entity_type;
  entity_id = r.entity_id;
  op_type = r.op_type;
  payload_json = r.payload_json;
  created_at = r.created_at;
}

-- COALESCE(MAX(server_sequence), 0) over a list of rows; MAX passes NULL over.
unfoldable pub max_sequence : List OpRow → ℕ
max_sequence [] = 0
max_sequence (r ∷ rs) = max (sequence_of r) (max_sequence rs)

unfoldable pub server_sequence : AuthenticatedDevice → Db → ℕ
unfolding max_sequence
server_sequence scope db = max_sequence (select (in_scope scope) db.ops)

abbrev pub is_pending : AuthenticatedDevice → ℤ → OpRow → Bool
is_pending scope since r = in_scope scope r && sequence_above since r

-- All rows of the scope after a cursor, in the order of their sequence.
unfoldable pub pending_rows : AuthenticatedDevice → ℤ → Db → List OpRow
unfolding order_by_sequence
pending_rows scope since db = order_by_sequence (select (is_pending scope since) db.ops)

-- The query's LIMIT is one more than the page's.
unfoldable pub fetch_rows : AuthenticatedDevice → ℤ → ℕ → Db → List OpDto
unfolding pending_rows
fetch_rows scope since limit db = map to_dto (take (limit + 1) (pending_rows scope since db))

-- The sequence of the last operation of a page, or the cursor of an empty one.
unfoldable pub last_sequence : ℕ → List OpDto → ℕ
last_sequence since [] = since
last_sequence since (o ∷ os) = last_sequence o.server_sequence os

unfoldable pub make_page : ℕ → ℕ → ℕ → List OpDto → PullResponse
unfolding last_sequence
make_page server_seq since limit rows =
    let has_more = ltb limit (length rows) in
    let ops = if has_more then take limit rows else rows in
    record {
      server_sequence = server_seq;
      page_last_sequence = last_sequence since ops;
      has_more = has_more;
      ops = ops;
    }

-- From the authenticated scope on.
unfoldable pub pull_scoped : AuthenticatedDevice → PullRequest → M Reply
unfolding server_sequence fetch_rows make_page
pull_scoped scope req = do
  stop_if (is_negative req.since_sequence || is_negative req.page_limit)
      (json_err_code 400 "invalid_request")
  limits ← gets (λ w. w.cfg.limits)
  let limit = magnitude (pull_page_limit limits req.page_limit)
  seq ← query_all (server_sequence scope)
  rows ← query_all (fetch_rows scope req.since_sequence limit)
  pure (json_ok (pulled (make_page seq (magnitude req.since_sequence) limit rows)))

-- handleSyncPull
unfoldable pub handle_sync_pull : Request → JsonBody PullRequest → M Reply
unfolding pull_scoped
handle_sync_pull r body = do
  stop_if (not (r.method == "POST")) method_not_allowed
  scope ← require_sync_scope r
  limit ← gets (λ w. w.cfg.limits.max_json_body)
  req ← decode_json_body body limit
  pull_scoped scope req
