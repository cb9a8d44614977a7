-- ===== src/Tests/Machine.antt =====
-- internal/doctor, internal/ssh/agent.go, internal/ssh/keys.go and the files of
-- internal/ssh/config.go at concrete inputs.
use nk.Base.{
  ◌≡◌, refl, inl, inr, true, false, ◌&&◌, not, List, [], ◌∷◌, Option, none, some, Member, any,
}
use nk.Base.Text.{Text, codes}
use nk.Base.Clock.{zero_time}
use nk.Ssh.Certs.{cert_name}
use nk.Ssh.Config.{Places}
use nk.Ssh.Config.OneLine.{OneLine}
use nk.Ssh.Agent.{
  AgentRequest, add, extension, lock, shutdown_extension, Serving, serve_all, asks_shutdown,
  serve_all-signs_only,
}
use nk.Ssh.Keys.{IsSetUp, setup_key, setup_key-IsSetUp}
use nk.Ssh.Written.{SshFiles, contents, Writable, IsWritten, write_configs, write_configs-IsWritten}
use nk.Ssh.Command.{Found, IsCommand, nk_command, nk_command-IsCommand}
use nk.Doctor.{
  status_ok, status_warn, Report, Setup, tpm_ready, method_soft, check, is_fail, is_warn, exit_code,
  verdict, counts,
}
use nk.Doctor.Codes.{code_of, verdict_code, exit_code_lem}
use nk.Doctor.Checks.{check_config, check_permissions}
use nk.Doctor.Repair.{Tools, run}
use nk.Doctor.Repaired.{run_keeps, run_repairs}
use nk.Tests.Data.{web, web_id, session, synced, plain_case}
use nk.Tests.Certs.{parse_key, marshal}

abbrev report : Report
report = record {
  fixes = [];
  checks =
      check (codes "System") (codes "ssh") status_ok []
      ∷ check (codes "Account") (codes "signed in") status_warn []
      ∷ [];
}

exit_code_lem_example :
    (exit_code report ≡ code_of (any is_fail report.checks) (any is_warn report.checks) 0)
    × (verdict_code (verdict (counts report.checks)) ≡ exit_code report)
exit_code_lem_example = exit_code_lem report

abbrev places : Places
places = record {
  ssh_config = codes "/c";
  pub_key = codes "/p";
  agent_socket = codes "/a";
  known_hosts = codes "/k";
  certificate = λ id. id;
}

-- A setup that is open to others and does not include nk's file.
abbrev setup : Setup
setup = record {
  version = codes "1";
  ssh_version = some (codes "OpenSSH");
  tpm = tpm_ready;
  darwin = false;
  windows = false;
  enclave_enabled = false;
  enclave_available = false;
  reachable = true;
  method = method_soft;
  config_dir = codes "/home";
  dir_mode = some 493;
  user_config = some (codes "Host db\n");
  certificates = (cert_name web_id, codes "hour") ∷ (codes "old-cert.pub", codes "old") ∷ [];
}

abbrev writable : Writable
writable = record { ssh_config_ok = true; known_hosts_ok = true; user_config_ok = true }

abbrev tools : Tools
tools = record {
  chmod_ok = true;
  case_tables = plain_case;
  nk = codes "nk";
  own = [];
  writable = writable;
  ssh_config = none;
  known_hosts = none;
  absent = true;
  describe = λ e. codes "error";
  removable = λ name. true;
}

run_keeps_example :
    Member
      (cert_name web_id, codes "hour")
      (run parse_key marshal places tools zero_time session true setup).1.certificates
run_keeps_example =
    run_keeps parse_key marshal places tools zero_time session true setup web (codes "hour")
      (inr (inl refl)) (inl refl)

run_repairs_example :
    let after = (run parse_key marshal places tools zero_time session true setup).1 in
    ((check_config places after.user_config).status ≡ status_ok) × (check_permissions after ≡ [])
run_repairs_example =
    run_repairs parse_key marshal places tools zero_time session setup refl (refl, (refl, tt))
      (refl, refl, refl) (inl refl)

abbrev sign_by : List Text → Text → Option Text
sign_by keys payload = none

abbrev requests : List AgentRequest
requests = add (codes "other") ∷ lock (codes "x") ∷ extension shutdown_extension ∷ []

abbrev serving : Serving
serving = record { keys = codes "nokku" ∷ []; listening = true }

serve_all-signs_only_example :
    ((serve_all sign_by requests serving).keys ≡ serving.keys)
    × ((serve_all sign_by requests serving).listening
        ≡ (serving.listening && not (any (asks_shutdown sign_by) requests)))
serve_all-signs_only_example = serve_all-signs_only sign_by requests serving

setup_key-IsSetUp_example :
    let r =
      setup_key
        (λ name. true)
        (some (codes "ssh-ed25519 B"))
        none
        (some (codes "ssh-ed25519 A"))
        true
        setup.certificates in
    IsSetUp
      (λ name. true)
      (some (codes "ssh-ed25519 B"))
      (some (codes "ssh-ed25519 A"))
      setup.certificates
      r.file
      r.certificates
      r.error
setup_key-IsSetUp_example =
    setup_key-IsSetUp (λ name. true) (some (codes "ssh-ed25519 B")) none
      (some (codes "ssh-ed25519 A")) true setup.certificates

abbrev files : SshFiles
files = record { ssh_config = none; known_hosts = none; user_config = contents (codes "Host db\n") }

write_configs-IsWritten_example :
    let r = write_configs plain_case places zero_time (codes "nk") [] writable synced files in
    IsWritten plain_case places zero_time (codes "nk") [] synced files.user_config r.0 r.1
write_configs-IsWritten_example =
    write_configs-IsWritten plain_case places zero_time (codes "nk") [] writable synced files
      (refl, (refl, tt))

abbrev found : Found
found = record { path = codes "/usr/bin/nk"; is_abs = true; is_same = true }

nk_command-IsCommand_example :
    let self = some (codes "/opt/nk 2/nk") in
    IsCommand self (some found) (nk_command self (some found))
    × OneLine (nk_command self (some found))
nk_command-IsCommand_example = nk_command-IsCommand (some (codes "/opt/nk 2/nk")) (some found)
