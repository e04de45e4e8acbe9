-- ===== src/Config/Positive.antt =====
-- The limits that the server works with are positive.
use verstak_sync_server.Prelude.{false, Option, none, some, ℤ, is_nonpositive, ◌≡◌}
use verstak_sync_server.Config.{Config, Limits}
use verstak_sync_server.Config.Normalize.{or_default}

-- Every limit is a positive number.
abbrev pub IsPositive : Limits → Type 0
IsPositive l =
    (is_nonpositive l.max_json_body ≡ false)
    × (is_nonpositive l.max_push_operations ≡ false)
    × (is_nonpositive l.max_payload_json ≡ false)
    × (is_nonpositive l.max_pull_page ≡ false)
    × (is_nonpositive l.max_blob_bytes ≡ false)
    × (is_nonpositive l.max_vault_blob_bytes ≡ false)
    × (is_nonpositive l.max_user_blob_bytes ≡ false)

or_default-kept : (default x : ℤ) → is_nonpositive x ≡ false → or_default default x ≡ x
or_default-kept default x h = rw h

abbrev limits_or : Limits → Option Config → Limits
limits_or l none = l
limits_or l (some c) = c.limits
