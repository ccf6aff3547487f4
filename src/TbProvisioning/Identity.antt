-- ===== src/TbProvisioning/Identity.antt =====
-- tb_provisioning.c: the identity that an enrollment stores. What it uses of the OSAL and of the platform's
-- tb_enrollment is a parameter.
use hq_led_lamp.Common.{
  ℕ, Bool, false, not, ◌||◌, Option, none, some, List, [], ◌∷◌, ◌==◌, if◌then◌else◌, length,
}
use hq_led_lamp.Json.{Text, codes}
use hq_led_lamp.AppConfig.Storage.{Storage}
use hq_led_lamp.AppConfig.Typed.{Value}
use hq_led_lamp.TbProvisioning.Config.{ProvisioningError, ProvisioningConfig}

abbrev pub identity_path : Text
identity_path = codes "/config/identity.json"

abbrev pub identity_tmp_path : Text
identity_tmp_path = codes "/config/identity.json.tmp"

-- `tb_enrollment_status_t` as `tb_provisioning_enroll` reads it.
pub data EnrollmentStatus : Type 0 where
  ok persist response other : EnrollmentStatus

-- Files that can be written, and cJSON's printer.
pub record Volume : Type 1 where
  pub files : Storage
  pub create : Text → files.World → Option files.Fd × files.World  -- with create and truncate
  pub write : files.Fd → Text → files.World → Option ℕ × files.World  -- none for a negative count
  pub rename : Text → Text → files.World → Bool × files.World
  pub print : List (Text × Value) → files.World → Option Text × files.World

-- The members of the identity.
unfoldable pub identity_members : ProvisioningConfig → Text → List (Text × Value)
identity_members config token =
    (codes "schema_version", Value.number 1)
    ∷ (codes "client_id", Value.string config.device_name)
    ∷ (codes "access_token", Value.string token)
    ∷ []

abbrev pub is_whole : ℕ → Option ℕ → Bool
is_whole size none = false
is_whole size (some n) = n == size

-- The statuses of an enrollment; none for success.
abbrev pub enrollment_error : EnrollmentStatus → Option ProvisioningError
enrollment_error EnrollmentStatus.ok = none
enrollment_error EnrollmentStatus.persist = some ProvisioningError.persist
enrollment_error EnrollmentStatus.response = some ProvisioningError.response
enrollment_error EnrollmentStatus.other = some ProvisioningError.request

module _ (v : Volume) where
  open v.files use {World, Fd, close}

  -- `write_identity` on the open file.
  unfoldable pub write_open : Fd → Text → World → Bool × World
  write_open file json w =
      let (written, w1) = v.write file json w in
      let (closed, w2) = close file w1 in
      if is_whole (length json) written
      then v.rename identity_tmp_path identity_path w2
      else (false, w2)

  -- `write_identity` with the printed text.
  unfoldable pub write_text : Text → World → Bool × World
  write_text json w =
      let (file, w1) = v.create identity_tmp_path w in
      elim file [ none ↦ (false, w1) | some f ↦ write_open f json w1 ]

  -- `write_identity`, and `persist_identity`, which the enrollment calls with the credentials' value.
  unfoldable pub write_identity : ProvisioningConfig → Text → World → Bool × World
  write_identity config token w =
      let (json, w1) = v.print (identity_members config token) w in
      elim json [ none ↦ (false, w1) | some text ↦ write_text text w1 ]

  -- tb_enrollment_enroll, with the configuration, the timeout and the callback that persists a token.
  abbrev pub Enrollment : Type 0
  Enrollment =
      ProvisioningConfig → ℕ → (Text → World → Bool × World) → World → EnrollmentStatus × World

  -- `tb_provisioning_enroll`, with whether the client is not null.
  unfoldable pub provisioning_enroll :
      Enrollment → Bool → Option ProvisioningConfig → ℕ → World → Option ProvisioningError × World
  provisioning_enroll enroll client none timeout w = (some ProvisioningError.request, w)
  provisioning_enroll enroll client (some config) timeout w =
      if not client || (timeout == 0)
      then (some ProvisioningError.request, w)
      else let (status, w') = enroll config timeout (write_identity config) w in
        (enrollment_error status, w')
