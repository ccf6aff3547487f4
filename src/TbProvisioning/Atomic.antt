-- ===== src/TbProvisioning/Atomic.antt =====
-- tb_provisioning.c: the identity is replaced as a whole or not at all.
use hq_led_lamp.Common.{
  ℕ, ◌≡◌, ◌≢◌, ◌⊎◌, refl, ap, sym, subst, Bool, Bool-cases, true, false, false≢true, not, ◌||◌,
  Option, Option-cases, none, some, inl, inr, List, [], ◌∷◌, ◌==◌, arith, length,
}
use hq_led_lamp.Json.{Text, text_eq, codes}
use hq_led_lamp.AppConfig.Typed.{Value}
use hq_led_lamp.TbProvisioning.Config.{ProvisioningConfig}
use hq_led_lamp.TbProvisioning.Identity.{
  identity_path, identity_tmp_path, EnrollmentStatus, Volume, identity_members, is_whole,
  enrollment_error, write_open, write_text, write_identity, Enrollment, provisioning_enroll,
}

-- What is relied on of the files. A file has its content once a close of it has succeeded. Here `Holds w path c` says that the path has the content, and
-- `Writes w fd path c` that the file is open for writing on the path, with what was written.
pub record VolumeLaws (v : Volume) : Type 1 where
  pub Holds : v.files.World → Text → Text → Type 0
  pub Writes : v.files.World → v.files.Fd → Text → Text → Type 0
  pub print_keeps :
      (members : List (Text × Value)) (w : v.files.World) (path c : Text)
      → Holds w path c
      → Holds (v.print members w).1 path c
  pub create_writes :
      (path : Text) (w : v.files.World) (fd : v.files.Fd)
      → (v.create path w).0 ≡ some fd
      → Writes (v.create path w).1 fd path []
  pub create_keeps :
      (path path' c : Text) (w : v.files.World)
      → path ≢ path'
      → Holds w path' c
      → Holds (v.create path w).1 path' c
  -- A write that accepts every byte has written the text; any write leaves the other files.
  pub write_whole :
      (fd : v.files.Fd) (path t : Text) (w : v.files.World)
      → Writes w fd path []
      → (v.write fd t w).0 ≡ some (length t)
      → Writes (v.write fd t w).1 fd path t
  pub write_close_keeps :
      (fd : v.files.Fd) (path path' t c : Text) (w : v.files.World)
      → Writes w fd path []
      → path ≢ path'
      → Holds w path' c
      → Holds (v.files.close fd (v.write fd t w).1).1 path' c
  pub close_holds :
      (fd : v.files.Fd) (path c : Text) (w : v.files.World)
      → Writes w fd path c
      → (v.files.close fd w).0 ≡ true
      → Holds (v.files.close fd w).1 path c
  pub rename_holds :
      (from to c : Text) (w : v.files.World)
      → Holds w from c
      → (v.rename from to w).0 ≡ true
      → Holds (v.rename from to w).1 to c
  pub rename_keeps :
      (from to path c : Text) (w : v.files.World)
      → (v.rename from to w).0 ≡ false
      → Holds w path c
      → Holds (v.rename from to w).1 path c

paths_differ : identity_tmp_path ≢ identity_path
unfolding text_eq
paths_differ h = false≢true (ap (λ t. text_eq t identity_path) h)

module _ {v : Volume} (laws : VolumeLaws v) where
  open v.files use {World, Fd, close}
  open laws use {
    Holds, Writes, print_keeps, create_writes, create_keeps, write_whole, write_close_keeps,
    close_holds, rename_holds, rename_keeps,
  }

  is_whole-some : (size : ℕ) (n : Option ℕ) → is_whole size n ≡ true → n ≡ some size
  is_whole-some size none h = absurd (false≢true h)
  is_whole-some size (some n) h = ground (arith, h)

  -- Closing a file does not fail.
  abbrev pub ClosesWell : Type 0
  ClosesWell = (fd : Fd) (w : World) → (close fd w).0 ≡ true

  write_open_stores :
      (fd : Fd) (json : Text) (w : World)
      → ClosesWell
      → Writes w fd identity_tmp_path []
      → (write_open v fd json w).0 ≡ true
      → Holds (write_open v fd json w).1 identity_path json
  unfolding write_open
  write_open_stores fd json w closes open_tmp h =
      elim (Bool-cases (is_whole (length json) (v.write fd json w).0)) [
        | inl whole ↦
            let count = is_whole-some (length json) (v.write fd json w).0 whole in
            let written = write_whole fd identity_tmp_path json w open_tmp count in
            let closed =
              close_holds fd identity_tmp_path json (v.write fd json w).1 written
                (closes fd (v.write fd json w).1) in
            let renamed =
              rename_holds identity_tmp_path identity_path json (close fd (v.write fd json w).1).1
                closed in
            ground (arith, whole, h, renamed)
        | inr short ↦ absurd (false≢true (ground (arith, h, short)))
      ]

  write_open_keeps :
      (fd : Fd) (json old : Text) (w : World)
      → Writes w fd identity_tmp_path []
      → Holds w identity_path old
      → (write_open v fd json w).0 ≡ false
      → Holds (write_open v fd json w).1 identity_path old
  unfolding write_open
  write_open_keeps fd json old w open_tmp holds h =
      let closed =
        write_close_keeps fd identity_tmp_path identity_path json old w open_tmp paths_differ
          holds in
      let kept =
        rename_keeps identity_tmp_path identity_path identity_path old
          (close fd (v.write fd json w).1).1 in
      ground (arith, h, closed, kept)

  write_text_stores :
      (json : Text) (w : World)
      → ClosesWell
      → (write_text v json w).0 ≡ true
      → Holds (write_text v json w).1 identity_path json
  unfolding write_text
  write_text_stores json w closes h = elim (Option-cases (v.create identity_tmp_path w).0) [
    | inl e ↦ absurd (false≢true (ground (arith, h, e)))
    | inr (fd, e) ↦
        let open_tmp = create_writes identity_tmp_path w fd e in
        ground
          (arith, h, e, write_open_stores fd json (v.create identity_tmp_path w).1 closes open_tmp)
  ]

  write_text_keeps :
      (json old : Text) (w : World)
      → Holds w identity_path old
      → (write_text v json w).0 ≡ false
      → Holds (write_text v json w).1 identity_path old
  unfolding write_text
  write_text_keeps json old w holds h =
      let kept = create_keeps identity_tmp_path identity_path old w paths_differ holds in
      elim (Option-cases (v.create identity_tmp_path w).0) [
        | inl e ↦ ground (arith, e, kept)
        | inr (fd, e) ↦
            let open_tmp = create_writes identity_tmp_path w fd e in
            ground (
              arith,
              h,
              e,
              write_open_keeps fd json old (v.create identity_tmp_path w).1 open_tmp kept,
            )
      ]

  -- The printed identity of a configuration and a token: version 1, the device's name and the token.
  abbrev pub IsPrinted : ProvisioningConfig → Text → Text → Type 0
  IsPrinted config token json =
      (w : World) × ((v.print
          ((codes "schema_version", Value.number 1)
            ∷ (codes "client_id", Value.string config.device_name)
            ∷ (codes "access_token", Value.string token)
            ∷ [])
          w).0
        ≡ some json)

  write_identity_stores :
      (config : ProvisioningConfig) (token : Text) (w : World)
      → ClosesWell
      → (write_identity v config token w).0 ≡ true
      → (json : Text) × IsPrinted config token json
        × Holds (write_identity v config token w).1 identity_path json
  unfolding write_identity identity_members
  write_identity_stores config token w closes h =
      elim (Option-cases (v.print (identity_members config token) w).0) [
        | inl e ↦ absurd (false≢true (ground (arith, h, e)))
        | inr (json, e) ↦
            let stored =
              write_text_stores json (v.print (identity_members config token) w).1 closes in
            (json, (w, e), ground (arith, h, e, stored))
      ]

  write_identity_keeps :
      (config : ProvisioningConfig) (token old : Text) (w : World)
      → Holds w identity_path old
      → (write_identity v config token w).0 ≡ false
      → Holds (write_identity v config token w).1 identity_path old
  unfolding write_identity
  write_identity_keeps config token old w holds h =
      let printed = print_keeps (identity_members config token) w identity_path old holds in
      elim (Option-cases (v.print (identity_members config token) w).0) [
        | inl e ↦ ground (arith, e, printed)
        | inr (json, e) ↦
            let kept =
              write_text_keeps json old (v.print (identity_members config token) w).1 printed in
            ground (arith, h, e, kept)
      ]

  -- write_identity either reports success, and the identity is then the printed document with version 1,
  -- the device's name and the token, or it reports a failure, and the identity that was there is kept. For
  -- files on which a rename replaces its target as a whole or fails without effect, and if no osal_close
  -- fails: the code ignores its result.
  pub write_identity_lem :
      (config : ProvisioningConfig) (token old : Text) (w : World)
      → ClosesWell
      → Holds w identity_path old
      → let (stored, w') = write_identity v config token w in
        ((stored ≡ true)
          × ((json : Text) × IsPrinted config token json × Holds w' identity_path json))
        ⊎ ((stored ≡ false) × Holds w' identity_path old)
  write_identity_lem config token old w closes holds =
      elim (Bool-cases (write_identity v config token w).0) [
        | inl stored ↦ inl (stored, write_identity_stores config token w closes stored)
        | inr failed ↦ inr (failed, write_identity_keeps config token old w holds failed)
      ]

  -- An enrollment that reports success has had a token persisted, and touched nothing since.
  abbrev pub Persists : Enrollment v → Type 0
  Persists enroll =
      (config : ProvisioningConfig) (timeout : ℕ) (persist : Text → World → Bool × World)
      (w : World)
      → (enroll config timeout persist w).0 ≡ EnrollmentStatus.ok
      → (token : Text) × (before : World) × ((persist token before).0 ≡ true)
        × ((enroll config timeout persist w).1 ≡ (persist token before).1)

  enrollment_ok :
      (status : EnrollmentStatus) → enrollment_error status ≡ none → status ≡ EnrollmentStatus.ok
  enrollment_ok EnrollmentStatus.ok h = refl
  enrollment_ok EnrollmentStatus.persist h = absurd cc
  enrollment_ok EnrollmentStatus.response h = absurd cc
  enrollment_ok EnrollmentStatus.other h = absurd cc

  -- When tb_provisioning_enroll returns TB_PROVISIONING_OK, the identity is the printed document with the
  -- device's name and a token, for an enrollment that reports success only once its callback has stored
  -- the token, and if no osal_close fails.
  pub provisioning_enroll_stores :
      (enroll : Enrollment v) (client : Bool) (config : ProvisioningConfig) (timeout : ℕ)
      (w : World)
      → ClosesWell
      → Persists enroll
      → (provisioning_enroll v enroll client (some config) timeout w).0 ≡ none
      → (token : Text) × (json : Text) × IsPrinted config token json
        × Holds (provisioning_enroll v enroll client (some config) timeout w).1 identity_path json
  unfolding provisioning_enroll
  provisioning_enroll_stores enroll client config timeout w closes persists h =
      elim (Bool-cases (not client || (timeout == 0))) [
        | inl refused ↦ absurd (ground (arith, h, refused))
        | inr accepted ↦
            let done =
              enrollment_ok (enroll config timeout (write_identity v config) w).0
                (ground (arith, h, accepted)) in
            let (token, before, stored, same) =
              persists config timeout (write_identity v config) w done in
            let (json, printed, holds) = write_identity_stores config token before closes stored in
            let kept = subst (λ z. Holds z identity_path json) (sym same) holds in
            (token, json, printed, ground (arith, accepted, kept))
      ]
