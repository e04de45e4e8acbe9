-- ===== src/Proxy.antt =====
-- internal/server/proxy.go: whose address a request comes from, and whether it came over TLS.
use verstak_sync_server.Prelude.{
  ℕ, String, Bool, false, eqb, ◌&&◌, Option, none, some, List, [], ◌∷◌, any, trim_space, split,
  if◌then◌else◌, ◌||◌,
}
use Prim.Native.Char.{Char, code}
use verstak_sync_server.Config.{Config}
use verstak_sync_server.Server.World.{Host}
use verstak_sync_server.Server.Request.{Request}

-- isTrustedProxy
abbrev pub is_trusted_proxy : Host → Config → String → Bool
is_trusted_proxy host cfg addr =
    any (λ prefix. host.prefix_contains prefix addr) cfg.trusted_proxy_prefixes

abbrev pub first_address : Host → List String → Option String
first_address host [] = none
first_address host (value ∷ values) =
    let rest = first_address host values in
    elim (host.parse_addr (trim_space value)) [ some addr ↦ some addr | none ↦ rest ]

abbrev pub or_else : String → Option String → String
or_else s none = s
or_else s (some t) = t

-- clientIPFromPeer
unfoldable pub client_ip_from_peer : Host → Config → String → String → String
client_ip_from_peer host cfg peer forwarded_for = elim (host.parse_addr (trim_space peer)) [
  | none ↦ peer
  | some addr ↦
      if is_trusted_proxy host cfg addr
      then or_else addr (first_address host (split 44 forwarded_for))
      else peer
]

-- clientIP
unfoldable pub client_ip : Host → Config → Request → String
unfolding client_ip_from_peer
client_ip host cfg r = client_ip_from_peer host cfg r.peer r.forwarded_for

abbrev is_bracket : ℕ → Bool
is_bracket c = eqb c 91 || eqb c 93

unfoldable drop_brackets : String → String
drop_brackets String.[] = String.[]
drop_brackets (String.◌∷◌ c s) = if is_bracket (code c) then drop_brackets s else String.◌∷◌ c s

unfoldable drop_last_brackets : String → String
drop_last_brackets String.[] = String.[]
drop_last_brackets (String.◌∷◌ c s) = keep_or_drop c (drop_last_brackets s)
  where
    keep_or_drop : Char → String → String
    keep_or_drop d String.[] = if is_bracket (code d) then String.[] else String.◌∷◌ d String.[]
    keep_or_drop d (String.◌∷◌ e r) = String.◌∷◌ d (String.◌∷◌ e r)

-- remotePeerIsTrusted
unfoldable pub remote_peer_is_trusted : Host → Config → Request → Bool
unfolding drop_brackets drop_last_brackets
remote_peer_is_trusted host cfg r =
    elim (host.parse_addr (drop_last_brackets (drop_brackets r.peer))) [
      | none ↦ false
      | some addr ↦ is_trusted_proxy host cfg addr
    ]

-- requestIsHTTPS
unfoldable pub request_is_https : Host → Config → Request → Bool
unfolding remote_peer_is_trusted
request_is_https host cfg r =
    r.tls
    || (remote_peer_is_trusted host cfg r && host.equal_fold (trim_space r.forwarded_proto) "https")
