-- ===== src/Sync/Validation.antt =====
-- The requests that validateSyncPush accepts.
use verstak_sync_server.Prelude.{
  ℕ, ◌≤◌, ◌≡◌, refl, sym, ◌∙◌, ◌↔◌, String, len, Bool, true, false, not, ◌||◌, ◌&&◌, Option, none,
  some, List, [], ◌∷◌, arith, is_negative, exceeds, ltb, ◌==◌, All, length, trim_space,
}
use verstak_sync_server.Config.{Limits}
use verstak_sync_server.Server.World.{Host}
use verstak_sync_server.Sync.Contract.{
  PushOperation, PushRequest, max_device_id_length, max_idempotency_key_length, or_else, code_if,
  too_long, field_error, fields_error, named_fields, payload_error, operations_error,
  validate_sync_push,
}

-- A field is present and within its bound, in bytes.
abbrev pub IsNamed : String × ℕ → Type 0
IsNamed (value, max) = ((trim_space value == "") ≡ false) × (len value ≤ max)

-- One operation that validateSyncPush accepts.
pub record IsAcceptable (host : Host) (limits : Limits) (op : PushOperation) : Type 0 where
  pub named : All IsNamed (named_fields op)
  pub small : exceeds (len op.payload_json) limits.max_payload_json ≡ false
  pub json : (not (op.payload_json == "") && not (host.json_valid op.payload_json)) ≡ false
  pub counted : (is_negative op.client_sequence || is_negative op.last_seen_server_seq) ≡ false

or_else-none : (a b : Option String) → or_else a b ≡ none → (a ≡ none) × (b ≡ none)
or_else-none none b h = (refl, h)
or_else-none (some c) b h = absurd (ground arith)

code_if-none : (b : Bool) (code : String) → code_if b code ≡ none → b ≡ false
code_if-none true code h = absurd (ground arith)
code_if-none false code h = refl

code_if-false : (b : Bool) (code : String) → b ≡ false → code_if b code ≡ none
code_if-false b code h = rw h

or_else-both : (a b : Option String) → a ≡ none → b ≡ none → or_else a b ≡ none
or_else-both a b h k = rw (h, k)

field-IsNamed : (value : String) (max : ℕ) → (field_error value max ≡ none) ↔ IsNamed (value, max)
unfolding field_error too_long
field-IsNamed value max = (ground arith, λ h. ground arith)

fields-IsNamed : (fs : List (String × ℕ)) → (fields_error fs ≡ none) ↔ All IsNamed fs
unfolding fields_error
fields-IsNamed [] = (λ h. tt, λ h. refl)
fields-IsNamed ((value, max) ∷ rest) = (
  λ h.
      let (here, later) = or_else-none (field_error value max) (fields_error rest) h in
      ((field-IsNamed value max).0 here, (fields-IsNamed rest).0 later),
  λ h.
      or_else-both (field_error value max) (fields_error rest) ((field-IsNamed value max).1 h.0)
        ((fields-IsNamed rest).1 h.1),
)

payload_error-none :
    (host : Host) (limits : Limits) (op : PushOperation)
    → (payload_error host limits op ≡ none) ↔ (
        (exceeds (len op.payload_json) limits.max_payload_json ≡ false)
        × ((not (op.payload_json == "") && not (host.json_valid op.payload_json)) ≡ false)
        × ((is_negative op.client_sequence || is_negative op.last_seen_server_seq) ≡ false))
unfolding payload_error
payload_error-none host limits op = (
  λ h.
      let (small, rest) = or_else-none _ _ h in
      let (json, counted) = or_else-none _ _ rest in
      (code_if-none _ _ small, code_if-none _ _ json, code_if-none _ _ counted),
  λ h. rw (h.0, h.1, h.2),
)

operation-IsAcceptable :
    (host : Host) (limits : Limits) (op : PushOperation)
    → (or_else (fields_error (named_fields op)) (payload_error host limits op) ≡ none)
      ↔ IsAcceptable host limits op
operation-IsAcceptable host limits op = (
  λ h.
      let (n, p) = or_else-none (fields_error (named_fields op)) (payload_error host limits op) h in
      let (small, json, counted) = (payload_error-none host limits op).0 p in
      record {
        named = (fields-IsNamed (named_fields op)).0 n;
        small = small;
        json = json;
        counted = counted;
      },
  λ a.
      or_else-both (fields_error (named_fields op)) (payload_error host limits op)
        ((fields-IsNamed (named_fields op)).1 a.named)
        ((payload_error-none host limits op).1 (a.small, a.json, a.counted)),
)

or_else_assoc : (a b c : Option String) → or_else a (or_else b c) ≡ or_else (or_else a b) c
or_else_assoc none b c = refl
or_else_assoc (some x) b c = refl

operations-IsAcceptable :
    (host : Host) (limits : Limits) (ops : List PushOperation)
    → (operations_error host limits ops ≡ none) ↔ All (IsAcceptable host limits) ops
unfolding operations_error
operations-IsAcceptable host limits [] = (λ h. tt, λ h. refl)
operations-IsAcceptable host limits (op ∷ ops) = (
  λ h.
      let (here, later) = or_else-none _ _ (sym assoc ∙ h) in
      (
        (operation-IsAcceptable host limits op).0 here,
        (operations-IsAcceptable host limits ops).0 later,
      ),
  λ h.
      assoc
      ∙ or_else-both _ _ ((operation-IsAcceptable host limits op).1 h.0)
          ((operations-IsAcceptable host limits ops).1 h.1),
)
  where
    assoc :
        or_else
          (fields_error (named_fields op))
          (or_else (payload_error host limits op) (operations_error host limits ops))
        ≡ or_else
            (or_else (fields_error (named_fields op)) (payload_error host limits op))
            (operations_error host limits ops)
    assoc = or_else_assoc (fields_error (named_fields op)) _ _

-- validateSyncPush accepts a request exactly if it has at most as many operations as the limit
-- says, its device id and its idempotency key are at most 128 bytes long, and each operation has
-- its four names, none only of spaces and each within its bound, a payload that is not too long
-- and is empty or valid JSON, and no negative sequence.
pub validate_sync_push_iff :
    (host : Host) (limits : Limits) (req : PushRequest)
    → (validate_sync_push host limits req ≡ none) ↔ (
        (exceeds (length req.ops) limits.max_push_operations ≡ false)
        × (len req.device_id ≤ max_device_id_length)
        × (len req.idempotency_key ≤ max_idempotency_key_length)
        × All (IsAcceptable host limits) req.ops)
unfolding validate_sync_push too_long
validate_sync_push_iff host limits req = (
  λ h.
      let (few, rest) = or_else-none _ _ h in
      let (device, rest') = or_else-none _ _ rest in
      let (key, each) = or_else-none _ _ rest' in
      let d : ltb max_device_id_length (len req.device_id) ≡ false = code_if-none _ _ device in
      let k : ltb max_idempotency_key_length (len req.idempotency_key) ≡ false =
        code_if-none _ _ key in
      (
        code_if-none _ _ few,
        ground arith,
        ground arith,
        (operations-IsAcceptable host limits req.ops).0 each,
      ),
  λ (few, device, key, each).
      let d : ltb max_device_id_length (len req.device_id) ≡ false = ground arith in
      let k : ltb max_idempotency_key_length (len req.idempotency_key) ≡ false = ground arith in
      rw (few, d, k) ((operations-IsAcceptable host limits req.ops).1 each),
)
