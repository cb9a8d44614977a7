-- ===== src/Doctor/Repaired.antt =====
-- internal/doctor/doctor.go: what nk doctor changes, and that its repair repairs.
use nk.Base.{
  List, ap, ℕ, ◌≡◌, refl, ◌∙◌, ◌⊎◌, inl, inr, Bool, true, false, ◌&&◌, not, [], Option, none, some,
  Member, map, ◌==◌, Bool-cases,
}
use nk.Base.Text.{Text, CaseTables}
use nk.Base.Clock.{Time}
use nk.State.{State, Target, has_cached_data}
use nk.Ssh.Certs.{PublicKey, cert_name}
use nk.Ssh.Certs.Cleanup.{cleanup_certs_keeps}
use nk.Ssh.Config.{Places, has_include}
use nk.Ssh.Config.OneLine.{OneLine}
use nk.Ssh.Own.{OwnBlock}
use nk.Ssh.Written.{
  UserFile, unreadable, contents, FileError, SshFiles, Writable, write_configs, IsWritten,
  write_configs-IsWritten, write_configs-succeeds,
}
use nk.Doctor.{Setup, status_ok}
use nk.Doctor.Checks.{check_config, check_permissions, check_mode, private_mode}
use nk.Doctor.Repair.{
  Tools, fix_mode, fix_permissions, fix_written, fix_config, fix_cleaned, fix_certificates, repair,
  run, rewritten, user_file, read_user,
}

fix_mode-certificates :
    (w : Tools) (u : Setup) (m : Option ℕ)
    → ((fix_mode w u m).1.certificates ≡ u.certificates)
      × ((fix_mode w u m).1.user_config ≡ u.user_config)
unfolding fix_mode
fix_mode-certificates w u none = (refl, refl)
fix_mode-certificates w u (some m) = elim (Bool-cases (not (m == private_mode) && w.chmod_ok)) [
  | inl e ↦ rw e (refl, refl)
  | inr e ↦ rw e (refl, refl)
]

fix_permissions-certificates :
    (w : Tools) (u : Setup)
    → ((fix_permissions w u).1.certificates ≡ u.certificates)
      × ((fix_permissions w u).1.user_config ≡ u.user_config)
unfolding fix_permissions
fix_permissions-certificates w u = elim (Bool-cases u.windows) [
  | inl e ↦ simp e (refl, refl)
  | inr e ↦ simp e (fix_mode-certificates w u u.dir_mode)
]

fix_written-certificates :
    (u : Setup) (o : Option Text × Option Text) → (fix_written u o).1.certificates ≡ u.certificates
unfolding fix_written
fix_written-certificates u (after, none) = refl
fix_written-certificates u (after, some e) = refl

fix_certificates_keeps :
    (w : Tools) (s : State) (u : Setup) (t : Target) (body : Text)
    → (has_cached_data s ≡ false)
      ⊎ Member (cert_name t.id) (map (λ (k : Target). cert_name k.id) s.targets)
    → Member (cert_name t.id, body) u.certificates
    → Member (cert_name t.id, body) (fix_certificates w s u).1.certificates
unfolding fix_certificates fix_cleaned
fix_certificates_keeps w s u t body k m = elim (Bool-cases (has_cached_data s)) [
  | inr e ↦ simp e m
  | inl e ↦ elim k [
    | inl f ↦ cc
    | inr l ↦ simp e (cleanup_certs_keeps w.removable s.targets u.certificates t body l m)
  ]
]

repair_keeps :
    (w : Tools) (p : Places) (now : Time) (s : State) (u : Setup) (t : Target) (body : Text)
    → (has_cached_data s ≡ false)
      ⊎ Member (cert_name t.id) (map (λ (k : Target). cert_name k.id) s.targets)
    → Member (cert_name t.id, body) u.certificates
    → Member (cert_name t.id, body) (repair w p now s u).1.certificates
unfolding repair fix_config
repair_keeps w p now s u t body k m =
    let mode = (fix_permissions w u).1 in
    let config = (fix_config w p now s mode).1 in
    let same =
      fix_written-certificates mode (rewritten w p now s mode.user_config)
      ∙ (fix_permissions-certificates w u).0 in
    fix_certificates_keeps w s config t body k (rw same m)

-- The mode of the directory is right, or it cannot be told.
mode_repaired :
    (w : Tools) (u : Setup) (m : Option ℕ)
    → w.chmod_ok ≡ true
    → u.dir_mode ≡ m
    → check_mode u.config_dir (fix_mode w u m).1.dir_mode ≡ []
unfolding fix_mode check_mode
mode_repaired w u none ok e = rw e refl
mode_repaired w u (some m) ok e = elim (Bool-cases (m == private_mode)) [
  | inl f ↦ rw (f, e, f) refl
  | inr f ↦ rw (f, ok) refl
]

fix_mode_same :
    (w : Tools) (u : Setup) (m : Option ℕ)
    → ((fix_mode w u m).1.windows ≡ u.windows) × ((fix_mode w u m).1.config_dir ≡ u.config_dir)
unfolding fix_mode
fix_mode_same w u none = (refl, refl)
fix_mode_same w u (some m) = elim (Bool-cases (not (m == private_mode) && w.chmod_ok)) [
  | inl e ↦ rw e (refl, refl)
  | inr e ↦ rw e (refl, refl)
]

permissions_repaired :
    (w : Tools) (u : Setup) → w.chmod_ok ≡ true → check_permissions (fix_permissions w u).1 ≡ []
unfolding fix_permissions check_permissions
permissions_repaired w u ok = elim (Bool-cases u.windows) [
  | inl e ↦ simp e refl
  | inr e ↦
      let (v, d) = fix_mode_same w u u.dir_mode in
      simp e (simp (v, d, e) (mode_repaired w u u.dir_mode ok refl))
]

fix_written-check_permissions :
    (u : Setup) (o : Option Text × Option Text)
    → check_permissions (fix_written u o).1 ≡ check_permissions u
unfolding fix_written check_permissions
fix_written-check_permissions u (after, none) = refl
fix_written-check_permissions u (after, some e) = refl

fix_certificates-same :
    (w : Tools) (s : State) (u : Setup)
    → (check_permissions (fix_certificates w s u).1 ≡ check_permissions u)
      × ((fix_certificates w s u).1.user_config ≡ u.user_config)
unfolding fix_certificates fix_cleaned check_permissions
fix_certificates-same w s u = elim (Bool-cases (has_cached_data s)) [
  | inl e ↦ simp e (refl, refl)
  | inr e ↦ simp e (refl, refl)
]

fix_config-check_permissions :
    (w : Tools) (p : Places) (now : Time) (s : State) (u : Setup)
    → check_permissions (fix_config w p now s u).1 ≡ check_permissions u
unfolding fix_config
fix_config-check_permissions w p now s u =
    fix_written-check_permissions u (rewritten w p now s u.user_config)

-- Every write of WriteConfigs succeeds.
abbrev pub CanWrite : Writable → Type 0
CanWrite w = (w.ssh_config_ok ≡ true) × (w.known_hosts_ok ≡ true) × (w.user_config_ok ≡ true)

-- ~/.ssh/config can be read, or is not there.
abbrev IsReadable : Tools → Option Text → Type 0
IsReadable w file = (w.absent ≡ true) ⊎ ((d : Text) × (file ≡ some d))

by_user : (w : Tools) (a b : Option Text) → a ≡ b → IsReadable w b → IsReadable w a
by_user w a b e (inl h) = inl h
by_user w a b e (inr (d, h)) = inr (d, e ∙ h)

IsReadable-not_unreadable :
    (w : Tools) (file : Option Text) → IsReadable w file → ¬ (user_file w.absent file ≡ unreadable)
unfolding user_file
IsReadable-not_unreadable w none (inl h) e = cc (rw h at e)
IsReadable-not_unreadable w none (inr (d, h)) e = cc
IsReadable-not_unreadable w (some d) h e = cc

-- What a success of WriteConfigs says of the user's config.
included :
    (u : CaseTables) (p : Places) (now : Time) (nk : Text) (own : List OwnBlock) (s : State)
    (old : UserFile) (files : SshFiles) (e : Option FileError)
    → e ≡ none
    → IsWritten u p now nk own s old files e
    → (d : Text) × (files.user_config ≡ contents d) × (has_include p d ≡ true)
included u p now nk own s old files none q (a, b, c) = c
included u p now nk own s old files (some e) q h = cc

fix_written-user :
    (u : Setup) (o : Option Text × Option Text) → (fix_written u o).1.user_config ≡ o.0
unfolding fix_written
fix_written-user u (after, none) = refl
fix_written-user u (after, some e) = refl

config_repaired :
    (p : Places) (w : Tools) (now : Time) (s : State) (u : Setup)
    → OneLine p.ssh_config
    → CanWrite w.writable
    → IsReadable w u.user_config
    → (d : Text) × ((fix_config w p now s u).1.user_config ≡ some d) × (has_include p d ≡ true)
unfolding fix_config rewritten read_user
config_repaired p w now s u line can read =
    let files : SshFiles = record {
      ssh_config = w.ssh_config;
      known_hosts = w.known_hosts;
      user_config = user_file w.absent u.user_config;
    } in
    let r = write_configs w.case_tables p now w.nk w.own w.writable s files in
    let ok =
      write_configs-succeeds w.case_tables p now w.nk w.own w.writable s files can
        (IsReadable-not_unreadable w u.user_config read) in
    let (d, same, has) =
      included w.case_tables p now w.nk w.own s files.user_config r.0 r.1 ok
        (write_configs-IsWritten w.case_tables p now w.nk w.own w.writable s files line) in
    (d, fix_written-user u (rewritten w p now s u.user_config) ∙ ap read_user same, has)

module _ (parse_key : Text → Option PublicKey) (marshal : PublicKey → Text) (p : Places) where
  -- nk doctor never removes the certificate of a target that is in the snapshot, and without a
  -- snapshot none at all, with --fix or without.
  pub run_keeps :
      (w : Tools) (now : Time) (s : State) (fix : Bool) (u : Setup) (t : Target) (body : Text)
      → (has_cached_data s ≡ false)
        ⊎ Member (cert_name t.id) (map (λ (k : Target). cert_name k.id) s.targets)
      → Member (cert_name t.id, body) u.certificates
      → Member (cert_name t.id, body) (run parse_key marshal p w now s fix u).1.certificates
  unfolding run
  run_keeps w now s true u t body k m = repair_keeps w p now s u t body k m
  run_keeps w now s false u t body k m = m

  -- Where the mode can be changed, the files can be written and ~/.ssh/config can be read or is not
  -- there, a run with --fix leaves a setup for which the check of ~/.ssh/config passes and the check
  -- of the permissions has nothing to say.
  pub run_repairs :
      (w : Tools) (now : Time) (s : State) (u : Setup)
      → w.chmod_ok ≡ true
      → OneLine p.ssh_config
      → CanWrite w.writable
      → (w.absent ≡ true) ⊎ ((d : Text) × (u.user_config ≡ some d))
      → let after = (run parse_key marshal p w now s true u).1 in
        ((check_config p after.user_config).status ≡ status_ok) × (check_permissions after ≡ [])
  unfolding run repair check_config
  run_repairs w now s u ok line can read =
      let mode = (fix_permissions w u).1 in
      let config = (fix_config w p now s mode).1 in
      let (perms, file) = fix_certificates-same w s config in
      let e = (fix_permissions-certificates w u).1 in
      let (d, same, has) =
        config_repaired p w now s mode line can (by_user w mode.user_config u.user_config e read) in
      (
        rw (file, same, has) refl,
        perms ∙ fix_config-check_permissions w p now s mode ∙ permissions_repaired w u ok,
      )
