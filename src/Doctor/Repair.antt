-- ===== src/Doctor/Repair.antt =====
-- internal/doctor/doctor.go: repair and Run, over WriteConfigs of internal/ssh. Whether the directory's
-- mode can be changed, a certificate be removed and a file be written are arguments.
use nk.Base.{
  ℕ, ◌-◌, Bool, ◌&&◌, not, List, [], ◌∷◌, ◌++◌, Option, none, some, length, ltb, ◌==◌,
  if◌then◌else◌,
}
use nk.Base.Text.{Text, codes, text_eq, CaseTables}
use nk.Base.Clock.{Time}
use nk.State.{State, has_cached_data}
use nk.Ssh.Certs.{PublicKey, Files, cleanup_certs}
use nk.Ssh.Config.{Places}
use nk.Ssh.Own.{OwnBlock}
use nk.Ssh.Written.{UserFile, no_file, unreadable, contents, FileError, Writable, write_configs}
use nk.Ui.{decimal}
use nk.Doctor.{Report, Setup, check_system}
use nk.Doctor.Checks.{private_mode, check_account, check_ssh}

-- What the repair gets from outside: what WriteConfigs works with, nk's own two files, whether a
-- ~/.ssh/config that cannot be read is absent, and the messages of its errors.
pub record Tools : Type 0 where
  pub chmod_ok : Bool
  pub case_tables : CaseTables
  pub nk : Text
  pub own : List OwnBlock
  pub writable : Writable
  pub ssh_config : Option Text
  pub known_hosts : Option Text
  pub absent : Bool
  pub describe : FileError → Text
  pub removable : Text → Bool

-- What was reported, and the setup.
abbrev pub Fixed : Type 0
Fixed = List Text × Setup

unfoldable pub fix_mode : Tools → Setup → Option ℕ → Fixed
fix_mode w u none = ([], u)
fix_mode w u (some m) =
    if not (m == private_mode) && w.chmod_ok
    then (
      (codes "made " ++ u.config_dir ++ codes " private") ∷ [],
      record u { dir_mode = some private_mode },
    )
    else ([], u)

unfoldable pub fix_permissions : Tools → Setup → Fixed
unfolding fix_mode
fix_permissions w u = if u.windows then ([], u) else fix_mode w u u.dir_mode

abbrev pub text_of : Option Text → Text
text_of none = []
text_of (some t) = t

unfoldable pub fix_written : Setup → Option Text × Option Text → Fixed
unfolding text_eq
fix_written u (after, some e) =
    ((codes "could not regenerate the ssh config: " ++ e) ∷ [], record u { user_config = after })
fix_written u (after, none) = (
  if text_eq (text_of u.user_config) (text_of after)
      then []
      else codes "added the Nokku include to ~/.ssh/config" ∷ [],
  record u { user_config = after },
)

unfoldable pub user_file : Bool → Option Text → UserFile
user_file absent none = if absent then no_file else unreadable
user_file absent (some d) = contents d

-- os.ReadFile behind the write, its error dropped
unfoldable pub read_user : UserFile → Option Text
read_user no_file = none
read_user unreadable = none
read_user (contents d) = some d

abbrev pub described : Tools → Option FileError → Option Text
described w none = none
described w (some e) = some (w.describe e)

-- ~/.ssh/config behind WriteConfigs, and the message of its error.
unfoldable pub rewritten : Tools → Places → Time → State → Option Text → Option Text × Option Text
unfolding write_configs user_file read_user
rewritten w p now s user =
    let r = write_configs w.case_tables p now w.nk w.own w.writable s (record {
      ssh_config = w.ssh_config;
      known_hosts = w.known_hosts;
      user_config = user_file w.absent user;
    }) in
    (read_user r.0.user_config, described w r.1)

unfoldable pub fix_config : Tools → Places → Time → State → Setup → Fixed
unfolding fix_written rewritten
fix_config w p now s u = fix_written u (rewritten w p now s u.user_config)

unfoldable pub fix_cleaned : Setup → Files × Bool → Fixed
unfolding decimal
fix_cleaned u (left, ok) = (
  if ok && ltb (length left) (length u.certificates)
      then (codes "removed "
          ++ decimal (length u.certificates - length left)
          ++ codes " stale certificates")
        ∷ []
      else [],
  record u { certificates = left },
)

-- Without a synced snapshot nothing is pruned.
unfoldable pub fix_certificates : Tools → State → Setup → Fixed
unfolding has_cached_data cleanup_certs fix_cleaned
fix_certificates w s u =
    if has_cached_data s
    then fix_cleaned u (cleanup_certs w.removable s.targets u.certificates)
    else ([], u)

-- repair
unfoldable pub repair : Tools → Places → Time → State → Setup → Fixed
unfolding fix_permissions fix_config fix_certificates
repair w p now s u =
    let mode = fix_permissions w u in
    let config = fix_config w p now s mode.1 in
    let certs = fix_certificates w s config.1 in (mode.0 ++ config.0 ++ certs.0, certs.1)

module _ (parse_key : Text → Option PublicKey) (marshal : PublicKey → Text) (p : Places) where
  -- Run: the report, and the setup behind it.
  unfoldable pub run : Tools → Time → State → Bool → Setup → Report × Setup
  unfolding repair check_system check_account check_ssh
  run w now s fix u =
      let (fixes, after) = if fix then repair w p now s u else ([], u) in
      (
        record {
          fixes = fixes;
          checks =
              check_system after
              ++ check_account now after s
              ++ check_ssh parse_key marshal p now after s;
        },
        after,
      )
