-- ===== src/Device/Revocation.antt =====
-- A device that has been revoked can no longer prove who it is.
use verstak_sync_server.Prelude.{
  ℕ, suc, ◌≡◌, ◌≢◌, refl, sym, ap, ◌∙◌, subst, String, Bool, true, false, some, List, [], ◌∷◌, ◌==◌,
  Bool-cases, inl, inr, find, update_where, All, All-find, arith, eq_iff,
}
use verstak_sync_server.Schema.{Db, DeviceRow}
use verstak_sync_server.Server.World.{World, stamp}
use verstak_sync_server.Server.Reply.{json_err}
use verstak_sync_server.Server.Request.{Request}
use verstak_sync_server.Server.Action.{
  Exit, ok, ◌>>=◌, ◌>>◌, pure, stop_if, exec, query, Row, row, no_rows, broken, row_or,
}
use verstak_sync_server.Server.Success.{
  Succeeds, bind-Succeeds, statement-Succeeds, transaction-Succeeds, stop_if-Succeeds,
  query-Succeeds, to_row-some, row_or-Succeeds,
}
use verstak_sync_server.Device.Auth.{
  AuthenticatedDevice, authenticate_device, find_device, device_key, check_owner, touch_device,
  is_some, text_or_empty, device_of, note_visit, admit_device, by_token_hash, by_legacy_key,
  legacy_device, or_legacy,
}
use verstak_sync_server.Device.Enroll.{revoke_device, mark_revoked, drop_device_sessions}

-- What revokeDevice leaves behind when it succeeds.
revoke_device-db :
    (id : String) (when : ℕ) (w w' : World)
    → Succeeds (revoke_device id when) w tt w'
    → w'.db ≡ drop_device_sessions id (mark_revoked id when w.db)
unfolding revoke_device
revoke_device-db id when w w' h =
    let (v, body, after) =
      transaction-Succeeds tt w' (do exec (mark_revoked id when); exec (drop_device_sessions id)) w
        h in
    let (t, u, first, second) =
      bind-Succeeds (λ _. exec (drop_device_sessions id)) tt v (exec (mark_revoked id when))
        (record w { step = suc w.step }) body in
    let at_u =
      statement-Succeeds t u (λ db. (tt, mark_revoked id when db)) (record w { step = suc w.step })
        first in
    let at_v = statement-Succeeds tt v (λ db. (tt, drop_device_sessions id db)) u second in
    ap (λ (x : World). x.db) after
    ∙ ap (λ (x : World). x.db) at_v
    ∙ ap (λ (x : World). drop_device_sessions id x.db) at_u

-- The device with this id, if there is one, has been revoked.
abbrev pub IsRevoked : String → DeviceRow → Type 0
IsRevoked id d = (d.id == id) ≡ true → is_some d.revoked_at ≡ true

marked :
    (id : String) (when : ℕ) (ds : List DeviceRow)
    → All
        (IsRevoked id)
        (update_where (λ d. d.id == id) (λ d. record d { revoked_at = some when }) ds)
marked id when [] = tt
marked id when (d ∷ ds) = elim (Bool-cases (d.id == id)) [
  | inl e ↦ (rw e (λ _. refl), marked id when ds)
  | inr e ↦
      (rw e (λ k. let clash : false ≡ true = sym e ∙ k in absurd (ground arith)), marked id when ds)
]

module _ {κ} (P : DeviceRow → Type κ) where
  query-All :
      (test : DeviceRow → Bool) (r : Row DeviceRow) (w w' : World) (d : DeviceRow)
      → All P w.db.devices
      → Succeeds (query (λ db. find test db.devices)) w r w'
      → r ≡ row d
      → P d
  query-All test r w w' d all h k =
      let answer = query-Succeeds (λ db. find test db.devices) r w w' h in
      All-find P test w.db.devices all (to_row-some (find test w.db.devices) r d answer.1 k)

  legacy-All :
      (key : String) (w w' : World) (d : DeviceRow)
      → All P w.db.devices
      → Succeeds (legacy_device key) w d w'
      → P d
  legacy-All key w w' d all h =
      let (r, u, q, rest) =
        bind-Succeeds (λ (r : Row DeviceRow). row_or r (json_err 401) (json_err 401)) d w'
          (query (λ db. find (by_legacy_key key) db.devices)) w h in
      query-All (by_legacy_key key) r w u d all q
        (row_or-Succeeds r (json_err 401) (json_err 401) u w' d rest).0

  or_legacy-All :
      (key : String) (r : Row DeviceRow) (w w' : World) (d : DeviceRow)
      → All P w.db.devices
      → ((x : DeviceRow) → r ≡ row x → P x)
      → Succeeds (or_legacy key r) w d w'
      → P d
  or_legacy-All key (row x) w w' d all p h =
      let k : ok x ≡ ok d = ap (λ (p : Exit DeviceRow × World). p.0) h in
      let same : x ≡ d = ground arith in subst P same (p x refl)
  or_legacy-All key no_rows w w' d all p h = legacy-All key w w' d all h
  or_legacy-All key broken w w' d all p h = legacy-All key w w' d all h

  -- What holds of every device on record holds of the one that is found.
  find_device-All :
      (key : String) (w w' : World) (d : DeviceRow)
      → All P w.db.devices
      → Succeeds (find_device key) w d w'
      → P d
  unfolding find_device
  find_device-All key w w' d all h =
      let test = by_token_hash (w.host.sha256_hex key) in
      let (r, u, q, rest) =
        bind-Succeeds (or_legacy key) d w' (query (λ db. find test db.devices)) w h in
      let at_u = (query-Succeeds (λ db. find test db.devices) r w u q).0 in
      or_legacy-All key r u w' d (subst (λ (x : World). All P x.db.devices) (sym at_u) all)
        (λ x k. query-All test r w u x all q k) rest

admit_device-Succeeds :
    (d : DeviceRow) (w w' : World) (a : AuthenticatedDevice)
    → Succeeds (admit_device d) w a w'
    → (is_some d.revoked_at ≡ false) × (a.device_id ≡ d.id)
admit_device-Succeeds d w w' a h =
    let (t, u, first, rest) =
      bind-Succeeds (λ _. check_owner (text_or_empty d.user_id) >> note_visit d) a w'
        (stop_if (is_some d.revoked_at) (json_err 401)) w h in
    let (t', v, second, last) =
      bind-Succeeds (λ _. note_visit d) a w' (check_owner (text_or_empty d.user_id)) u rest in
    let (t'', x, touched, done) =
      bind-Succeeds (λ _. pure (device_of d)) a w' (exec (touch_device (stamp v.now) d.id)) v
        last in
    let k : ok (device_of d) ≡ ok a = ap (λ (p : Exit AuthenticatedDevice × World). p.0) done in
    let same : device_of d ≡ a = ground arith in
    (
      (stop_if-Succeeds (is_some d.revoked_at) (json_err 401) w u t first).0,
      ap (λ (y : AuthenticatedDevice). y.device_id) (sym same),
    )

-- No request is authenticated as a device whose rows are all revoked.
authenticated-not_revoked :
    (id : String) (r : Request) (w w' : World) (a : AuthenticatedDevice)
    → All (IsRevoked id) w.db.devices
    → Succeeds (authenticate_device r) w a w'
    → a.device_id ≢ id
unfolding authenticate_device
authenticated-not_revoked id r w w' a all h same =
    let (t, u, first, rest) =
      bind-Succeeds (λ _. find_device (device_key r) >>= admit_device) a w'
        (stop_if (device_key r == "") (json_err 401)) w h in
    let at_u = (stop_if-Succeeds (device_key r == "") (json_err 401) w u t first).1 in
    let (d, v, found, last) = bind-Succeeds admit_device a w' (find_device (device_key r)) u rest in
    let revoked =
      find_device-All (IsRevoked id) (device_key r) u v d
        (subst (λ (x : World). All (IsRevoked id) x.db.devices) (sym at_u) all) found in
    let (live, named) = admit_device-Succeeds d v w' a last in
    let this : (d.id == id) ≡ true = (eq_iff d.id id).1 (sym named ∙ same) in
    let clash : false ≡ true = sym live ∙ revoked this in absurd (ground arith)

-- Once revokeDevice has succeeded, no request of any kind is authenticated as that device in a
-- later world with those tables, whatever token it carries and whichever statements then fail.
pub revoke_device-final :
    (id : String) (when : ℕ) (w w' : World)
    → Succeeds (revoke_device id when) w tt w'
    → (r : Request) (later after : World) (a : AuthenticatedDevice) → later.db ≡ w'.db
    → Succeeds (authenticate_device r) later a after
    → a.device_id ≢ id
revoke_device-final id when w w' h r later after a same k =
    authenticated-not_revoked id r later after a
      (subst (λ (db : Db). All (IsRevoked id) db.devices)
        (sym (same ∙ revoke_device-db id when w w' h)) (marked id when w.db.devices))
      k
