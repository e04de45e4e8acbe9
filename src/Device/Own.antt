-- ===== src/Device/Own.antt =====
-- The parts of a request to the dashboard: what they show and what they leave as it was.
use verstak_sync_server.Prelude.{
  ◌≡◌, refl, ap, ◌∙◌, String, true, not, some, List, ◌==◌, Bool-cases, inl, inr, find, eq_true,
  trim_prefix, trim_suffix, if◌then◌else◌, ℤ, ◌⊎◌, false, is_nonpositive, magnitude, arith,
}
use verstak_sync_server.Schema.{Db, UserRow, DeviceRow}
use verstak_sync_server.Server.World.{World, Host}
use verstak_sync_server.Server.Reply.{Reply, json_err, internal_error}
use verstak_sync_server.Server.Request.{
  Request, JsonBody, value_of, Decoded, Trailing, first_value, end_of_body, another,
  decode_json_body,
}
use verstak_sync_server.Server.Action.{Exit, ok, halt, ◌>>=◌, stop_if, or_stop, query, Row, row_or}
use verstak_sync_server.Server.Success.{
  Succeeds, bind-Succeeds, stop_if-Succeeds, or_stop-Succeeds, query-Succeeds, to_row-some,
  row_or-Succeeds,
}
use verstak_sync_server.Server.Frame.{Keeps, bind-Keeps, query-Keeps}
use verstak_sync_server.Server.Changed.{decode_json_body-Keeps, row_or-Keeps}
use verstak_sync_server.Session.Safety.{not-false}
use verstak_sync_server.Session.Frame.{stop_if-Keeps}
use verstak_sync_server.Rate.Frame.{allow_rate-Keeps, allow_web_rate-Keeps}
use verstak_sync_server.Device.Forms.{
  given_password, limit_attempts, check_password, check_device, form_request, wrong_password,
}

-- The libraries, the limit on the length of a body, the users and the devices.
abbrev pub accounts : World → Host × ℤ × List UserRow × List DeviceRow
accounts w = (w.host, w.cfg.limits.max_json_body, w.db.users, w.db.devices)

pub given_password-Keeps :
    (r : Request) (body : JsonBody String) → Keeps accounts (given_password r body)
given_password-Keeps r body w = elim (Bool-cases (form_request r)) [
  | inl e ↦ rw e refl
  | inr e ↦ rw e (decode_json_body-Keeps accounts body w.cfg.limits.max_json_body w)
]

pub limit_attempts-Keeps :
    (r : Request) (subject : String) → Keeps accounts (limit_attempts r subject)
limit_attempts-Keeps r subject w = elim (Bool-cases (form_request r)) [
  | inl e ↦ rw e (
      allow_web_rate-Keeps accounts (λ _. refl) (λ _ _. refl) (λ _ _. refl) r "auth-test" subject w)
  | inr e ↦
      rw e
        (allow_rate-Keeps accounts (λ _. refl) (λ _ _. refl) (λ _ _. refl) r "auth-test" subject w)
]

abbrev pub refusal : Request → Reply
refusal r = if form_request r then wrong_password else json_err 403

-- The user's row, with the password that was given.
pub check_password-Keeps :
    (r : Request) (subject password : String) → Keeps accounts (check_password r subject password)
check_password-Keeps r subject password w =
    let f = λ (db : Db). find (λ (u : UserRow). u.id == subject) db.users in
    let check =
      λ (u : UserRow). stop_if (not (w.host.bcrypt_matches u.password_hash password)) (refusal r) in
    bind-Keeps accounts (query f) (λ x. row_or x internal_error internal_error >>= check)
      (query-Keeps accounts f (λ _. refl))
      (λ x.
        bind-Keeps accounts (row_or x internal_error internal_error) check
          (row_or-Keeps accounts x internal_error internal_error)
          (λ u.
            stop_if-Keeps accounts (not (w.host.bcrypt_matches u.password_hash password))
              (refusal r)))
      w

pub check_password-Succeeds :
    (r : Request) (subject password : String) (w w' : World) (t : Unit {0})
    → Succeeds (check_password r subject password) w t w'
    → (u : UserRow) × (find (λ (u : UserRow). u.id == subject) w.db.users ≡ some u)
      × (w.host.bcrypt_matches u.password_hash password ≡ true)
check_password-Succeeds r subject password w w' t h =
    let f = λ (db : Db). find (λ (u : UserRow). u.id == subject) db.users in
    let wrong = λ (u : UserRow). not (w.host.bcrypt_matches u.password_hash password) in
    let check = λ (u : UserRow). stop_if (wrong u) (refusal r) in
    let (x, v, asked, rest) =
      bind-Succeeds (λ (x : Row UserRow). row_or x internal_error internal_error >>= check) t w'
        (query f) w h in
    let (u, y, chosen, last) =
      bind-Succeeds check t w' (row_or x internal_error internal_error) v rest in
    let (is_row, _) = row_or-Succeeds x internal_error internal_error v y u chosen in
    (
      u,
      to_row-some (f w.db) x u (query-Succeeds f x w v asked).1 is_row,
      not-false (w.host.bcrypt_matches u.password_hash password)
          (stop_if-Succeeds (wrong u) (refusal r) y w' t last).0,
    )

pub check_device-Succeeds :
    (subject id : String) (w w' : World) (t : Unit {0})
    → Succeeds (check_device subject id) w t w'
    → (d : DeviceRow) × (find (λ (d : DeviceRow). d.id == id) w.db.devices ≡ some d)
      × (d.user_id ≡ some subject)
check_device-Succeeds subject id w w' t h =
    let f = λ (db : Db). find (λ (d : DeviceRow). d.id == id) db.devices in
    let check = λ (owner : String). stop_if (not (owner == subject)) (json_err 403) in
    let owned = λ (d : DeviceRow). or_stop d.user_id (json_err 404) >>= check in
    let (x, v, asked, rest) =
      bind-Succeeds (λ (x : Row DeviceRow). row_or x (json_err 404) (json_err 404) >>= owned) t w'
        (query f) w h in
    let (d, y, chosen, more) =
      bind-Succeeds owned t w' (row_or x (json_err 404) (json_err 404)) v rest in
    let (owner, z, known, last) =
      bind-Succeeds check t w' (or_stop d.user_id (json_err 404)) y more in
    let (is_row, _) = row_or-Succeeds x (json_err 404) (json_err 404) v y d chosen in
    let same = eq_true owner subject (
      not-false (owner == subject)
        (stop_if-Succeeds (not (owner == subject)) (json_err 403) z w' t last).0) in
    (
      d,
      to_row-some (f w.db) x d (query-Succeeds f x w v asked).1 is_row,
      (or_stop-Succeeds d.user_id (json_err 404) y z owner known).0 ∙ ap some same,
    )

abbrev pub devices : World → List DeviceRow
devices w = w.db.devices

abbrev pub devices_of : Host × ℤ × List UserRow × List DeviceRow → List DeviceRow
devices_of (host, limit, users, rows) = rows

abbrev pub limit_of : Host × ℤ × List UserRow × List DeviceRow → ℤ
limit_of (host, limit, users, rows) = limit

-- The id in a path such as `/api/v1/user/devices/<id>/revoke`.
abbrev pub device_in_path : Request → String
device_in_path r =
    trim_suffix (trim_suffix (trim_prefix r.path "/api/v1/user/devices/") "/revoke") "/"

-- The password that the request gives, in its form or else as the JSON body, with the limit on
-- the length of a body.
abbrev pub IsGiven : Request → JsonBody String → ℤ → String → Type 0
IsGiven r body limit password =
    ((form_request r ≡ true) × (value_of "password" r.form ≡ password))
    ⊎ ((form_request r ≡ false)
        × ((body (if is_nonpositive limit then 1 else magnitude limit)).0 ≡ Decoded.value password))

stopped {ℓ} :
    {X : Type ℓ} {reply : Reply} {p : String} {w w' : World}
    → ◌≡◌ {A = Exit String × World} (halt reply, w) (ok p, w')
    → X
stopped {reply = reply} {p = p} h =
    let k : halt reply ≡ ok p = ap (λ (x : Exit String × World). x.0) h in absurd (ground arith)

first_value-value :
    (first : Decoded String) (rest : Trailing) (p : String) (w w' : World)
    → Succeeds (first_value first rest) w p w'
    → first ≡ Decoded.value p
first_value-value (Decoded.value q) end_of_body p w w' h =
    let k : ok q ≡ ok p = ap (λ (x : Exit String × World). x.0) h in ground arith
first_value-value (Decoded.value q) another p w w' h = stopped h
first_value-value (Decoded.value q) Trailing.too_large p w w' h = stopped h
first_value-value (Decoded.value q) Trailing.malformed p w w' h = stopped h
first_value-value Decoded.too_large rest p w w' h = stopped h
first_value-value Decoded.malformed rest p w w' h = stopped h

pub given_password-IsGiven :
    (r : Request) (body : JsonBody String) (p : String) (w w' : World)
    → Succeeds (given_password r body) w p w'
    → IsGiven r body w.cfg.limits.max_json_body p
unfolding decode_json_body
given_password-IsGiven r body p w w' h = elim (Bool-cases (form_request r)) [
  | inl e ↦
      let k : ok (value_of "password" r.form) ≡ ok p =
        ap (λ (x : Exit String × World). x.0) (rw e at h) in
      inl (e, ground arith)
  | inr e ↦
      let limit = w.cfg.limits.max_json_body in
      let sent = body (if is_nonpositive limit then 1 else magnitude limit) in
      inr (e, first_value-value sent.0 sent.1 p w w' (rw e at h))
]

-- A password of the request that is the user's, and a device of the user's.
abbrev pub IsOwn :
    Request → JsonBody String → Host × ℤ × List UserRow × List DeviceRow → String → String → Type 0
IsOwn r body (host, limit, users, devices) subject id =
    (password : String) × (u : UserRow) × (d : DeviceRow) × IsGiven r body limit password
    × (find (λ (u : UserRow). u.id == subject) users ≡ some u)
    × (host.bcrypt_matches u.password_hash password ≡ true)
    × (find (λ (d : DeviceRow). d.id == id) devices ≡ some d)
    × (d.user_id ≡ some subject)
