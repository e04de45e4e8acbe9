-- ===== src/Server/Request.antt =====
-- What a handler reads of a request: net/http's Request, after the address has been split from
-- the port (net.SplitHostPort, or the whole RemoteAddr where that fails).
use verstak_sync_server.Prelude.{
  ℕ, String, Bool, Option, List, [], ◌∷◌, none, some, ℤ, is_nonpositive, magnitude, ◌==◌,
  if◌then◌else◌,
}
use verstak_sync_server.Server.Reply.{json_err_code}
use verstak_sync_server.Server.Action.{M, pure, stop}

-- A form field or query parameter that is missing reads as the empty text.
pub record Request : Type 0 where
  pub method : String
  pub path : String
  pub authorization : String
  pub api_key : String
  pub content_type : String
  pub origin : String
  pub request_host : String
  pub peer : String
  pub forwarded_for : String
  pub forwarded_proto : String
  pub tls : Bool
  pub cookies : List (String × String)
  pub csrf_header : String
  pub form_valid : Bool
  pub form : List (String × String)
  pub params : List (String × String)
  pub accept_language : String

abbrev pub lookup {ℓ} : {V : Type ℓ} → String → List (String × V) → Option V
lookup k [] = none
lookup k ((j, v) ∷ m) = if j == k then some v else lookup k m

-- r.FormValue, r.URL.Query().Get
abbrev pub value_of : String → List (String × String) → String
value_of k m = elim (lookup k m) [ none ↦ "" | some v ↦ v ]

-- What json.Decoder makes of the bytes that http.MaxBytesReader lets through, for each limit: the
-- first value, and what comes after it.
pub data Decoded {ℓ} (A : Type ℓ) : Type ℓ where
  value : A → Decoded A
  too_large : Decoded A
  malformed : Decoded A

pub data Trailing : Type 0 where
  end_of_body : Trailing
  another : Trailing
  too_large : Trailing
  malformed : Trailing

abbrev pub JsonBody {ℓ} : Type ℓ → Type ℓ
JsonBody A = ℕ → Decoded A × Trailing

abbrev pub after_value {ℓ} : {A : Type ℓ} → A → Trailing → M A
after_value a end_of_body = pure a
after_value a another = stop (json_err_code 400 "trailing_json")
after_value a Trailing.too_large = stop (json_err_code 413 "request_too_large")
after_value a Trailing.malformed = stop (json_err_code 400 "invalid_json")

abbrev pub first_value {ℓ} : {A : Type ℓ} → Decoded A → Trailing → M A
first_value (value a) rest = after_value a rest
first_value Decoded.too_large rest = stop (json_err_code 413 "request_too_large")
first_value Decoded.malformed rest = stop (json_err_code 400 "invalid_json")

-- decodeJSONBody
unfoldable pub decode_json_body {ℓ} : {A : Type ℓ} → JsonBody A → ℤ → M A
decode_json_body body limit =
    let (first, rest) = body (if is_nonpositive limit then 1 else magnitude limit) in
    first_value first rest
