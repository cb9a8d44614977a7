-- ===== src/Doctor/Checks.antt =====
-- internal/doctor/doctor.go: checkAccount and checkSSH.
use nk.Base.{
  ℕ, ◌+◌, ◌/◌, ◌%◌, Bool, true, false, ◌||◌, List, [], ◌∷◌, ◌++◌, Option, none, some, length, ◌==◌,
  if◌then◌else◌,
}
use nk.Base.Text.{Text, codes, text_eq}
use nk.Base.Clock.{Time, pos, sub, leb_ℤ}
use nk.State.{State, User, ServiceAccount, Target, session_valid}
use nk.Ssh.Certs.{PublicKey, Certificate, Files, parse_cert, cert_window, cert_name}
use nk.Ssh.Config.{Places, has_include}
use nk.Ui.{decimal, humanize_duration}
use nk.Doctor.{
  Status, status_ok, status_warn, status_fail, status_info, Check, Tpm, tpm_ready, tpm_forbidden,
  tpm_missing, Method, method_tpm, method_enclave, method_soft, method_none, Setup, check,
}

abbrev account : Status → Text → Check
account status detail = check (codes "Account") (codes "signed in") status detail

unfoldable pub check_signed_in : Time → State → Option ServiceAccount → Option User → Check
unfolding session_valid
check_signed_in now s (some a) u = account status_ok (codes "service account " ++ a.name)
check_signed_in now s none (some u) =
    if session_valid now s
    then account status_ok u.email
    else account status_warn (codes "session expired, run nk login")
check_signed_in now s none none = account status_warn (codes "not signed in, run nk login")

-- checkAccount
unfoldable pub check_account : Time → Setup → State → List Check
unfolding check_signed_in decimal
check_account now u s =
    check_signed_in now s s.service_account s.user
    ∷ check (codes "Account") (codes "servers") status_info (decimal (length s.targets))
    ∷ (if u.reachable
        then check (codes "Account") (codes "Nokku") status_ok s.api_url
        else check (codes "Account") (codes "Nokku") status_warn
            (codes "cannot reach " ++ s.api_url ++ codes ", ssh keeps working with cached access"))
    ∷ []

abbrev ssh_check : Text → Status → Text → Check
ssh_check name status detail = check (codes "SSH") name status detail

abbrev pub includes : Places → Option Text → Bool
includes p none = false
includes p (some data_read) = has_include p data_read

unfoldable pub check_config : Places → Option Text → Check
check_config p file =
    if includes p file
    then ssh_check (codes "~/.ssh/config") status_ok (codes "includes the Nokku config")
    else ssh_check (codes "~/.ssh/config") status_fail
        (codes "missing the Nokku include, run nk doctor --fix")

abbrev tpm_is_ready : Tpm → Bool
tpm_is_ready tpm_ready = true
tpm_is_ready tpm_forbidden = false
tpm_is_ready tpm_missing = false

unfoldable pub check_identity : Setup → Method → Check
check_identity u method_tpm =
    ssh_check (codes "identity") status_ok (codes "TPM key, never leaves the chip")
check_identity u method_enclave =
    ssh_check (codes "identity") status_ok (codes "Secure Enclave key, never leaves the chip")
check_identity u method_soft =
    if tpm_is_ready u.tpm || u.enclave_enabled
    then ssh_check (codes "identity") status_warn (
        codes "software key although this machine can keep it in hardware, "
        ++ codes "run nk logout and nk login to move it")
    else ssh_check (codes "identity") status_ok
        (codes "machine-wrapped key, tied to this machine's ID")
check_identity u method_none =
    ssh_check (codes "identity") status_warn (codes "none yet, run nk login")

-- `%04o` of permission bits, which are at most 0o777.
unfoldable pub octal : ℕ → Text
octal m = b'0' ∷ (b'0' + m / 64 % 8) ∷ (b'0' + m / 8 % 8) ∷ (b'0' + m % 8) ∷ []

-- 0o700
abbrev pub private_mode : ℕ
private_mode = 448

unfoldable pub check_mode : Text → Option ℕ → List Check
unfolding octal
check_mode dir none = []
check_mode dir (some m) =
    if m == private_mode
    then []
    else ssh_check (codes "permissions") status_warn
        (dir ++ codes " is " ++ octal m ++ codes ", run nk doctor --fix")
      ∷ []

unfoldable pub check_permissions : Setup → List Check
unfolding check_mode
check_permissions u = if u.windows then [] else check_mode u.config_dir u.dir_mode

-- os.ReadFile of a certificate, `none` where there is no such file.
unfoldable pub certificate_of : Files → Text → Option Text
unfolding text_eq
certificate_of [] name = none
certificate_of ((n, body) ∷ fs) name = if text_eq n name then some body else certificate_of fs name

module _ (parse_key : Text → Option PublicKey) (marshal : PublicKey → Text) where
  unfoldable pub check_parsed_cert : Time → Target → Option Certificate → Check
  unfolding cert_window humanize_duration sub
  check_parsed_cert now t none =
      ssh_check t.name status_fail (codes "unreadable certificate, run nk login")
  check_parsed_cert now t (some c) =
      let left = sub (cert_window c).1 now in
      if leb_ℤ left (pos 0)
      then ssh_check t.name status_warn
          (codes "certificate expired, renewed on the next ssh or nk login")
      else ssh_check t.name status_ok (codes "certificate valid for " ++ humanize_duration left)

  unfoldable pub check_certificate : Time → Target → Option Text → List Check
  unfolding check_parsed_cert parse_cert
  check_certificate now t none = []
  check_certificate now t (some line) =
      check_parsed_cert now t (parse_cert parse_key marshal line) ∷ []

  unfoldable pub check_certificates : Time → Files → List Target → List Check
  unfolding check_certificate certificate_of cert_name
  check_certificates now fs [] = []
  check_certificates now fs (t ∷ ts) =
      check_certificate now t (certificate_of fs (cert_name t.id)) ++ check_certificates now fs ts

  -- The line for no certificates at all.
  abbrev pub or_none_yet : List Check → List Check
  or_none_yet [] =
      ssh_check (codes "certificates") status_info
        (codes "none yet, fetched on the first ssh to a server")
      ∷ []
  or_none_yet (c ∷ cs) = c ∷ cs

  -- checkSSH
  unfoldable pub check_ssh : Places → Time → Setup → State → List Check
  unfolding check_config check_identity check_permissions check_certificates
  check_ssh p now u s =
      check_config p u.user_config
      ∷ check_identity u u.method
      ∷ (check_permissions u ++ or_none_yet (check_certificates now u.certificates s.targets))
