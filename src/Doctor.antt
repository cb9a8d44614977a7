-- ===== src/Doctor.antt =====
-- internal/doctor/doctor.go and internal/doctor/render.go: the checks, the repair, the exit code and
-- the summary of nk doctor. What the machine answers, and whether a change succeeds, is a record.
pub mod Checks
pub mod Repair
pub mod Codes
pub mod Repaired
use nk.Base.{
  ℕ, zero, suc, ◌+◌, ◌-◌, ◌*◌, ◌/◌, ◌%◌, ◌^◌, ◌≡◌, Bool, true, false, ◌&&◌, ◌||◌, not, List, [],
  ◌∷◌, ◌++◌, Option, none, some, length, any, find?, ltb, ◌==◌, if◌then◌else◌,
}
use nk.Base.Text.{Text, codes, text_eq, trim_space}
use nk.Base.Clock.{Time, Duration, pos, sub, leb_ℤ}
use nk.State.{State, User, ServiceAccount, Target, session_valid, has_cached_data}
use nk.Ssh.Certs.{PublicKey, Certificate, Files, parse_cert, cert_window, cert_name, cleanup_certs}
use nk.Ssh.Config.{Places, has_include}
use nk.Ui.{decimal, humanize_duration}

pub data Status : Type 0 where
  status_ok status_warn status_fail status_info : Status

pub record Check : Type 0 where
  pub section : Text
  pub name : Text
  pub status : Status
  pub detail : Text

pub record Report : Type 0 where
  pub fixes : List Text
  pub checks : List Check

abbrev pub is_fail : Check → Bool
is_fail c = elim c.status [ status_fail ↦ true | _ ↦ false ]

abbrev pub is_warn : Check → Bool
is_warn c = elim c.status [ status_warn ↦ true | _ ↦ false ]

abbrev pub on_status : Status → ℕ → (ℕ → ℕ) → ℕ
on_status status_fail code rest = 2
on_status status_warn code rest = rest 1
on_status status_ok code rest = rest code
on_status status_info code rest = rest code

-- The loop of Report.ExitCode, `code` so far.
unfoldable pub exit_from : List Check → ℕ → ℕ
exit_from [] code = code
exit_from (c ∷ cs) code = on_status c.status code (exit_from cs)

-- Report.ExitCode
unfoldable pub exit_code : Report → ℕ
unfolding exit_from
exit_code r = exit_from r.checks 0

-- The counts of summarize.
pub record Counts : Type 0 where
  pub ok : ℕ
  pub warn : ℕ
  pub fail : ℕ

abbrev pub count_status : Status → Counts → Counts
count_status status_ok c = record c { ok = suc c.ok }
count_status status_warn c = record c { warn = suc c.warn }
count_status status_fail c = record c { fail = suc c.fail }
count_status status_info c = c

unfoldable pub counts : List Check → Counts
counts [] = record { ok = 0; warn = 0; fail = 0 }
counts (c ∷ cs) = count_status c.status (counts cs)

-- The three endings of the summary's line.
pub data Verdict : Type 0 where
  run_fix see_warnings all_good : Verdict

unfoldable pub verdict : Counts → Verdict
verdict c = if ltb 0 c.fail then run_fix else if ltb 0 c.warn then see_warnings else all_good

abbrev pub advice : Verdict → Text
advice run_fix = codes " (run `nk doctor --fix` or `nk login`)"
advice see_warnings = codes " (see warnings above)"
advice all_good = codes " (all good)"

-- summarize, without the colour
unfoldable pub summarize : Report → Text
unfolding counts verdict decimal
summarize r =
    let c = counts r.checks in
    codes "Result: "
    ++ decimal c.ok
    ++ codes " ok, "
    ++ decimal c.warn
    ++ codes " warn, "
    ++ decimal c.fail
    ++ codes " fail"
    ++ advice (verdict c)

pub data Tpm : Type 0 where
  tpm_ready tpm_forbidden tpm_missing : Tpm

pub data Method : Type 0 where
  method_tpm method_enclave method_soft method_none : Method

-- What doctor looks at. A file that cannot be read has no data; a certificate that cannot be read
-- is there with an empty body, as its reading returns no data.
pub record Setup : Type 0 where
  pub version : Text
  pub ssh_version : Option Text
  pub tpm : Tpm
  pub darwin : Bool
  pub windows : Bool
  pub enclave_enabled : Bool
  pub enclave_available : Bool
  pub reachable : Bool
  pub method : Method
  pub config_dir : Text
  pub dir_mode : Option ℕ
  pub user_config : Option Text
  pub certificates : Files

abbrev pub check : Text → Text → Status → Text → Check
check section name status detail = record {
  section = section;
  name = name;
  status = status;
  detail = detail;
}

-- enclaveStatus
unfoldable pub enclave_status : Setup → Status × Text
enclave_status u =
    if u.enclave_enabled
    then (status_ok, codes "available")
    else if u.enclave_available
    then (
      status_info,
      codes "available but experimental, set NK_SECURE_ENCLAVE=1 before nk login to use it",
    )
    else (status_info, codes "not available, using a machine-wrapped key")

unfoldable pub check_tpm : Setup → Tpm → Check
unfolding enclave_status
check_tpm u tpm_ready = check (codes "System") (codes "TPM") status_ok (codes "available")
check_tpm u tpm_forbidden =
    if u.darwin
    then check (codes "System") (codes "Secure Enclave") (enclave_status u).0 (enclave_status u).1
    else check (codes "System") (codes "TPM") status_warn
        (codes "no access, run: sudo usermod -aG tss $USER, then log in again")
check_tpm u tpm_missing =
    if u.darwin
    then check (codes "System") (codes "Secure Enclave") (enclave_status u).0 (enclave_status u).1
    else check (codes "System") (codes "TPM") status_info
        (codes "not available, using a machine-wrapped key")

abbrev pub check_ssh_version : Option Text → Check
check_ssh_version none =
    check (codes "System") (codes "ssh") status_fail (codes "ssh not found, install OpenSSH")
check_ssh_version (some out) = check (codes "System") (codes "ssh") status_ok (trim_space out)

-- checkSystem
unfoldable pub check_system : Setup → List Check
unfolding check_tpm trim_space
check_system u =
    check (codes "System") (codes "nk") status_info u.version
    ∷ check_ssh_version u.ssh_version
    ∷ check_tpm u u.tpm
    ∷ []
