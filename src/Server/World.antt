-- ===== src/Server/World.antt =====
-- The state that a handler reads and writes, and the code that it calls but that is not here.
use verstak_sync_server.Prelude.{ℕ, String, Bool, Option, List, ℤ, ◌*◌, ◌/◌}
use verstak_sync_server.Schema.{Db}
use verstak_sync_server.Config.{Config}
use verstak_sync_server.Server.Reply.{PushResponse}

-- The part of a file operation's payload that the server reads; an option is a missing field.
pub record BlobReference : Type 0 where
  pub sha256 : String
  pub size : ℤ

pub record FilePayload : Type 0 where
  pub data_base64 : Option String
  pub blob : Option BlobReference

-- Libraries that the server calls: digests, bcrypt, JSON, network
-- addresses, url.Parse and url.ParseRequestURI, of which only the scheme and the host are read. An address
-- or a prefix stands for the netip value with that canonical text. `mail_sent` is what comes of
-- the conversation with the mail server that a test mail needs.
pub record Host : Type 0 where
  pub sha256_hex : String → String
  pub to_lower : String → String
  pub equal_fold : String → String → Bool
  pub parse_url : String → Option (String × String)
  pub parse_request_uri : String → Option (String × String)
  pub bcrypt_hash : String → ℕ → Option String
  pub bcrypt_matches : String → String → Bool
  pub json_valid : String → Bool
  pub file_payload : String → Option FilePayload
  pub marshal_push : PushResponse → String
  pub parse_address : String → Option String
  pub parse_addr : String → Option String
  pub parse_prefix : String → Option String
  pub addr_is6 : String → Bool
  pub prefix_from : String → ℕ → String
  pub prefix_masked : String → String
  pub prefix_contains : String → String → Bool
  pub mail_sent : List String → Bool

-- ratelimit.go's rateBucket; the zero time is `none`.
pub record RateBucket : Type 0 where
  pub count : ℕ
  pub window_start : Option ℕ
  pub last_seen : ℕ

-- web_admin.go's oneTimeWebSecret.
pub record OneTimeWebSecret : Type 0 where
  pub value : String
  pub expires_at : ℕ

-- `now` is in nanoseconds and stands still while one request is handled. `faults` says which
-- of the steps to come the database or the file system refuses, `draws` what the random source
-- gives. `files` are the blobs by their SHA-256, each below a directory of its own; `entries` are
-- the names that stand in the directory of the blobs itself, with their times of modification.
pub record World : Type 0 where
  pub host : Host
  pub cfg : Config
  pub db : Db
  pub now : ℕ
  pub faults : ℕ → Bool
  pub step : ℕ
  pub draws : ℕ → String
  pub drawn : ℕ
  pub buckets : List (String × RateBucket)
  pub web_secrets : List (String × OneTimeWebSecret)
  pub files : List (String × List ℕ)
  pub entries : List (String × ℕ)

abbrev pub second : ℕ
second = 1000000000

-- time.Now().UTC().Format(time.RFC3339), as the number of seconds.
abbrev pub stamp : ℕ → ℕ
stamp now = now / second

-- time.Parse of such a text: whole seconds.
abbrev pub instant : ℕ → ℕ
instant seconds = seconds * second
