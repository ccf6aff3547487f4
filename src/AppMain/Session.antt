-- ===== src/AppMain/Session.antt =====
-- app_main.c: the ThingsBoard session, the configuration gates and the verified connection. A function
-- returns its result, the static state and the world.
use hq_led_lamp.Common.{
  ◌+◌, ◌%◌, Bool, true, false, not, ◌&&◌, Option, none, some, ltb, ◌==◌, if◌then◌else◌, length,
}
use hq_led_lamp.Json.{Text, codes}
use hq_led_lamp.AppMain.Services.{
  Services, Session, ConnectStatus, network_connect_timeout_ms, is_before,
}

-- A text that a getter gives, that is not null and not empty.
unfoldable pub valid_text : Option (Option Text) → Option Text
valid_text none = none
valid_text (some none) = none
valid_text (some (some t)) = if length t == 0 then none else some t

module _ (svc : Services) where
  open svc use {
    World, Client, Config, device_name, auth_reject_threshold, reprovision_backoff_ms, time_ms,
    load_device, load_manufacturing, load_and_apply, get_server_url, connect, identity_load,
    identity_is_loaded, identity_token, identity_client_id, provisioning_load, enroll, client_init,
    client_update, client_disconnect, client_deinit, application_init, application_deinit,
  }

  abbrev pub Outcome : Type 0
  Outcome = Bool × (Session svc × World)

  -- `load_product_configuration`.
  unfoldable pub load_product_configuration : World → Bool × World
  load_product_configuration w =
      let (device, w1) = load_device w in if device then load_manufacturing w1 else (false, w1)

  -- `initialize_thingsboard_client`.
  unfoldable pub initialize_client : Session svc → Text → Text → Text → World → Outcome
  initialize_client s token client_id name w =
      let (url, w1) = get_server_url w in
      elim url [
        | none ↦ (false, (s, w1))
        | some u ↦
            let ((created, client), w2) = client_init s.tb_client u token client_id name w1 in
            let (started, w3) = application_init client w2 in
            if not created
            then (false, (record s { tb_client = client }, w2))
            else if started
            then (true, (record s { tb_client = client }, w3))
            else (false, (record s { tb_client = none }, client_deinit client w3))
      ]

  -- `destroy_thingsboard_session`.
  unfoldable pub destroy_session : Session svc → World → Session svc × World
  destroy_session s w = elim s.tb_client [
    | none ↦ (s, w)
    | some client ↦ (
      record s { tb_client = none },
      client_deinit (some client) (client_disconnect (some client) (application_deinit w)),
    )
  ]

  -- The token and the client id of `create_thingsboard_session`.
  unfoldable pub session_names : Session svc → World → Option (Text × Text)
  session_names s w =
      if s.needs_provisioning
      then some (codes "provision", device_name s.provisioning_config)
      else elim (valid_text (identity_token w)) [
        | none ↦ none
        | some token ↦ elim (valid_text (identity_client_id w)) [
          | none ↦ none
          | some client_id ↦ some (token, client_id)
        ]
      ]

  -- `create_thingsboard_session`.
  unfoldable pub create_session : Session svc → World → Outcome
  create_session s w = elim (session_names s w) [
    | none ↦ (false, (s, w))
    | some (token, client_id) ↦
        let (applied, w1) = load_and_apply w in
        if applied then initialize_client s token client_id client_id w1 else (false, (s, w1))
  ]

  -- `load_configuration`.
  unfoldable pub load_configuration : Session svc → World → Outcome
  load_configuration s w =
      let (product, w1) = load_product_configuration w in
      let (identity, w2) = identity_load w1 in
      let ((found, config), w3) = provisioning_load s.provisioning_config w2 in
      if not product
      then (false, (s, w1))
      else if identity
      then create_session (record s { needs_provisioning = false }) w2
      else if not found
      then (false, (record s { needs_provisioning = false; provisioning_config = config }, w3))
      else create_session (record s { needs_provisioning = true; provisioning_config = config }) w3

  -- A rejection of the device's credentials in `connect_verified_tls`.
  unfoldable pub count_rejection : Session svc → World → Session svc × World
  count_rejection s w =
      let count = (s.auth_reject_count + 1) % 4294967296 in
      let ((found, config), w1) = provisioning_load s.provisioning_config w in
      let s1 = record s { auth_reject_count = 0; provisioning_config = config } in
      let (s2, w2) = destroy_session s1 w1 in
      if ltb count auth_reject_threshold
      then (record s { auth_reject_count = count }, w)
      else if found
      then (record s2 { needs_provisioning = true }, w2)
      else (s1, w1)

  unfoldable pub discard_bootstrap : Session svc × World → Session svc × World
  discard_bootstrap (s, w) = if s.needs_provisioning then destroy_session s w else (s, w)

  -- What `connect_verified_tls` does when the first connection fails.
  unfoldable pub connect_failed : ConnectStatus → Session svc → World → Session svc × World
  connect_failed ConnectStatus.auth_rejected s w =
      discard_bootstrap (if s.needs_provisioning then (s, w) else count_rejection s w)
  connect_failed status s w = discard_bootstrap (s, w)

  -- The end of a failed enrollment: the backoff starts.
  unfoldable pub start_backoff : Session svc → World → Session svc × World
  start_backoff s w =
      let (s1, w1) = destroy_session s w in
      let (now, w2) = time_ms w1 in
      (
        record s1 {
          backoff_active = true;
          retry_at_ms = (now + reprovision_backoff_ms) % 4294967296;
        },
        w2,
      )

  -- The connection with the credentials of the enrollment.
  unfoldable pub connect_enrolled : Session svc → World → Outcome
  connect_enrolled s w =
      let (applied, w1) = load_and_apply w in
      let (status, w2) = connect network_connect_timeout_ms w1 in
      if not applied then (false, destroy_session s w1) else elim status [
        | ConnectStatus.ok ↦
            (true, (record s { needs_provisioning = false; auth_reject_count = 0 }, w2))
        | _ ↦ (false, (record s { needs_provisioning = false }, w2))
      ]

  unfoldable pub update_credentials : Session svc → World → Outcome
  update_credentials s w = elim (identity_token w) [
    | none ↦ (false, (s, w))
    | some token ↦ elim (identity_client_id w) [
      | none ↦ (false, (s, w))
      | some client_id ↦
          let (updated, w1) = client_update s.tb_client token client_id w in
          if updated then connect_enrolled s w1 else (false, (s, w1))
    ]
  ]

  -- The enrollment, over a verified bootstrap connection.
  unfoldable pub finish_enrollment : Session svc → World → Outcome
  finish_enrollment s w =
      let (enrolled, w1) = enroll s.tb_client s.provisioning_config w in
      let (identity, w2) = identity_load w1 in
      if not enrolled
      then (false, start_backoff s w1)
      else if not identity
      then (false, start_backoff s w2)
      else update_credentials s w2

  unfoldable pub connect_client : Session svc → World → Outcome
  connect_client s w =
      let (status, w1) = connect network_connect_timeout_ms w in
      elim status [
        | ConnectStatus.ok ↦
            if s.needs_provisioning
            then finish_enrollment s w1
            else (true, (record s { auth_reject_count = 0 }, w1))
        | e ↦ (false, connect_failed e s w1)
      ]

  -- What follows the backoff.
  unfoldable pub connect_session : Session svc → World → Outcome
  connect_session s w =
      let (created, (s1, w1)) = create_session s w in
      if not s.needs_provisioning && not (identity_is_loaded w)
      then (false, (s, w))
      else elim s.tb_client [
        | some client ↦ connect_client s w
        | none ↦ if created then connect_client s1 w1 else (false, (s1, w1))
      ]

  unfoldable pub connect_verified_tls : Session svc → World → Outcome
  connect_verified_tls s w =
      let (now, w1) = time_ms w in
      if not s.backoff_active
      then connect_session s w
      else if is_before now s.retry_at_ms
      then (false, (s, w1))
      else connect_session (record s { backoff_active = false }) w1
