-- ===== src/Manual/Script.antt =====
-- internal/manual/script.go: the script of a sync, and what it prints.
pub mod Shell
use nk.Base.{
  ℕ, ◌≡◌, refl, sym, ap, ◌∙◌, inl, inr, ◌⊎◌, Bool, true, false, ◌&&◌, ◌||◌, not, List, [], ◌∷◌,
  ◌++◌, map, keep, arith, All, Member, Option, none, some, append_assoc, ◌==◌, if◌then◌else◌,
  Bool-cases,
}
use nk.Base.Text.{Text, codes, is_empty, has_prefix, has_infix, split, join}
use nk.Base.Lines.{unlines, Lacks, split-Lacks, split-unlines}
use nk.Manual.Plan.{File, Plan}

-- q's replacement at one character
unfoldable pub quote_char : ℕ → Text
quote_char c = if c == b'\'' then codes "'\\''" else c ∷ []

unfoldable pub quote_body : Text → Text
unfolding quote_char
quote_body [] = []
quote_body (c ∷ s) = quote_char c ++ quote_body s

-- q
unfoldable pub q : Text → Text
unfolding quote_body
q s = b'\'' ∷ (quote_body s ++ (b'\'' ∷ []))

abbrev require_root : Text
require_root = codes "[ \"$(id -u)\" = 0 ] || { echo \"nk must connect as root\" >&2; exit 1; }\n"

abbrev reload_marker : Text
reload_marker = codes "#nk reloaded"

abbrev verify_marker : Text
verify_marker = codes "#nk verified"

abbrev reload_sshd : Text
reload_sshd =
    codes
      "if systemctl reload sshd 2>/dev/null || systemctl reload ssh 2>/dev/null ||\n  { [ -f /run/sshd.pid ] && kill -HUP \"$(cat /run/sshd.pid)\"; } ||\n  { [ -f /var/run/sshd.pid ] && kill -HUP \"$(cat /var/run/sshd.pid)\"; }; then\n  echo '"
    ++ (reload_marker ++ codes "'\nfi\n")

-- ProbeCommand of internal/manual/manual.go
unfoldable pub probe_command : Text
probe_command =
    require_root
    ++ codes
        "echo '#nk passwd'\ngetent passwd 2>/dev/null || cat /etc/passwd\necho '#nk hostkey'\nfor t in ed25519 ecdsa rsa; do\n  f=/etc/ssh/ssh_host_${t}_key.pub\n  if [ -r \"$f\" ]; then cat \"$f\"; break; fi\ndone\necho '#nk principals'\nfor f in /etc/ssh/nokku_principals/*; do\n  if [ -f \"$f\" ]; then basename \"$f\"; fi\ndone\n"

-- RemoveScript
unfoldable pub remove_script : Text
remove_script =
    codes "set -e\n"
    ++ require_root
    ++ codes
        "if [ -f /etc/ssh/sshd_config.d/60-nokku.conf ]; then\n  mv -f /etc/ssh/sshd_config.d/60-nokku.conf /etc/ssh/sshd_config.d/60-nokku.conf.nokku-bak\n  if ! sshd -t; then\n    mv -f /etc/ssh/sshd_config.d/60-nokku.conf.nokku-bak /etc/ssh/sshd_config.d/60-nokku.conf\n    echo 'sshd rejects its config without the Nokku drop-in, nothing was removed' >&2\n    exit 1\n  fi\n  rm -f /etc/ssh/sshd_config.d/60-nokku.conf.nokku-bak\n  echo \"removed   /etc/ssh/sshd_config.d/60-nokku.conf\"\nfi\nif [ -f /etc/ssh/nokku_ca.pub ]; then\n  rm -f /etc/ssh/nokku_ca.pub\n  echo \"removed   /etc/ssh/nokku_ca.pub\"\nfi\nif [ -d /etc/ssh/nokku_principals ]; then\n  rm -rf /etc/ssh/nokku_principals\n  echo \"removed   /etc/ssh/nokku_principals\"\nfi\n"
    ++ reload_sshd

-- The loop of Script over the files.
write_file : File → Text
unfolding q
write_file f =
    let path = q f.path in
    let content = q f.content in
    let tmp = q (f.path ++ codes ".nokku-tmp") in
    codes "if [ -f "
    ++ path
    ++ codes " ] && printf '%s' "
    ++ content
    ++ codes " | cmp -s - "
    ++ path
    ++ codes "; then\n  echo \"unchanged "
    ++ f.path
    ++ codes "\"\nelse\n  if [ -f "
    ++ path
    ++ codes " ]; then cp -p "
    ++ path
    ++ codes " "
    ++ q (f.path ++ codes ".nokku-bak")
    ++ codes "; else nk_new=\"$nk_new \""
    ++ path
    ++ codes "; fi\n  printf '%s' "
    ++ content
    ++ codes " > "
    ++ tmp
    ++ codes "\n  chmod 0644 "
    ++ tmp
    ++ codes "\n  mv -f "
    ++ tmp
    ++ codes " "
    ++ path
    ++ codes "\n  echo \"written   "
    ++ f.path
    ++ codes "\"\nfi\n"

write_files : List File → Text
unfolding write_file
write_files [] = []
write_files (f ∷ fs) = write_file f ++ write_files fs

remove_stale : List Text → Text
unfolding q
remove_stale [] = []
remove_stale (p ∷ ps) =
    codes "rm -f " ++ q p ++ codes "\necho \"removed   " ++ p ++ codes "\"\n" ++ remove_stale ps

-- Script, which is a method
unfoldable pub script : Plan → Text
unfolding write_files remove_stale q join
script p =
    let paths = join b' ' (map (λ (f : File). q f.path) p.files) in
    codes "set -e\n"
    ++ require_root
    ++ codes
        "sshd -t || { echo 'the sshd config on this host is already invalid, fix it first' >&2; exit 1; }\n"
    ++ codes "mkdir -p "
    ++ q (codes "/etc/ssh/nokku_principals")
    ++ codes " "
    ++ q (codes "/etc/ssh/sshd_config.d")
    ++ codes "\nchmod 0755 "
    ++ q (codes "/etc/ssh/nokku_principals")
    ++ codes "\nnk_new=''\nnk_restore() {\n  for f in "
    ++ paths
    ++ codes
        "; do\n    if [ -f \"$f.nokku-bak\" ]; then mv -f \"$f.nokku-bak\" \"$f\"; fi\n  done\n  for f in $nk_new; do rm -f \"$f\"; done\n}\n"
    ++ write_files p.files
    ++ codes
        "if ! sshd -t; then\n  nk_restore\n  echo 'sshd rejected the new config, every file was rolled back' >&2\n  exit 1\nfi\nfor f in "
    ++ paths
    ++ codes "; do rm -f \"$f.nokku-bak\"; done\n"
    ++ remove_stale p.stale
    ++ reload_sshd
    ++ codes "nk_cfg=$(sshd -T 2>/dev/null || true)\nif echo \"$nk_cfg\" | grep -qi "
    ++ q (codes "^trustedusercakeys /etc/ssh/nokku_ca.pub")
    ++ codes " && echo \"$nk_cfg\" | grep -qi "
    ++ q (codes "^authorizedprincipalsfile /etc/ssh/nokku_principals/%u")
    ++ codes "; then\n  echo '"
    ++ verify_marker
    ++ codes "'\nfi\n"

pub record Result : Type 0 where
  pub reloaded : Bool
  pub verified : Bool

-- ParseResult
unfoldable pub parse_result : Text → Result
unfolding has_infix
parse_result out = record {
  reloaded = has_infix out reload_marker;
  verified = has_infix out verify_marker;
}

abbrev pub is_shown : Text → Bool
is_shown line = not (is_empty line) && not (has_prefix line (codes "#nk "))

-- Output
unfoldable pub output : Text → Text
unfolding split has_prefix
output out = unlines (keep is_shown (split b'\n' out))
