-- ===== src/Ssh/Config.antt =====
-- internal/ssh/config.go: the generated ssh_config and known_hosts, and the Include line in the
-- user's own config.
-- The paths that nk keeps its files under, and the command that names this nk, are a record.
pub mod Aliases
pub mod OneLine
pub mod Lines
pub mod KnownHosts
pub mod Include
pub mod Quote
use nk.Base.{
  ℕ, suc, Bool, true, false, ◌&&◌, ◌||◌, not, List, [], ◌∷◌, ◌++◌, map, Option, none, some, ltb,
  leb, ◌==◌, within, keep, length, all, any, if◌then◌else◌,
}
use nk.Base.Text.{
  Text, codes, text_eq, is_empty, CaseTables, to_lower, trim_space, trim_left, split, join,
}
use nk.Base.Clock.{Time}
use nk.State.{Target, Ca, State, manual, ca_by_id, trusted_keys}
use nk.Ssh.Own.{OwnBlock, claims}

pub record Places : Type 0 where
  pub ssh_config : Text
  pub pub_key : Text
  pub agent_socket : Text
  pub known_hosts : Text
  pub certificate : Text → Text

abbrev pub header : List Text
header = codes "# Managed by Nokku. nk regenerates this file, do not edit it." ∷ [] ∷ []

abbrev pub is_alnum : ℕ → Bool
is_alnum c = within b'a' b'z' c || within b'A' b'Z' c || within b'0' b'9' c

-- the regular expression targetName
unfoldable pub target_name : Text → Bool
target_name [] = false
target_name (c ∷ s) = is_alnum c && all (λ x. is_alnum x || x == b'_' || x == b'-') s

-- the regular expression accountName
unfoldable pub account_name : Text → Bool
account_name [] = false
account_name (c ∷ s) =
    (within b'A' b'Z' c || within b'a' b'z' c || c == b'_')
    && all (λ x. is_alnum x || x == b'.' || x == b'_' || x == b'-') s

unfoldable pub first_account : List Text → Bool
unfolding account_name
first_account [] = false
first_account (a ∷ rest) = account_name a

-- usable
unfoldable pub usable : Target → Bool
unfolding first_account target_name
usable t = first_account t.usernames && target_name t.name

-- safeLine
unfoldable pub safe_line : Text → Bool
safe_line s = not (is_empty s) && not (any (λ c. ltb c 0x20 || c == 0x7f) s)

-- configValue's replacer, at one character
unfoldable pub escape_char : ℕ → Text
escape_char c =
    if c == b'\\' then b'\\' ∷ b'\\' ∷ [] else if c == b'"' then b'\\' ∷ b'"' ∷ [] else c ∷ []

unfoldable pub escape : Text → Text
unfolding escape_char
escape [] = []
escape (c ∷ s) = escape_char c ++ escape s

-- configValue
unfoldable pub config_value : Text → Text
unfolding escape
config_value v = b'"' ∷ (escape v ++ (b'"' ∷ []))

-- A Go map of aliases by target id; the entry written last comes first.
abbrev pub Aliases : Type 0
Aliases = List (Text × Text)

unfoldable pub alias_at : Aliases → Text → Option Text
unfolding text_eq
alias_at [] i = none
alias_at ((j, a) ∷ m) i = if text_eq j i then some a else alias_at m i

module _ (u : CaseTables) where
  abbrev pub same_name : Text → Target → Bool
  same_name lowered t = usable t && text_eq (to_lower u t.name) lowered

  -- names[strings.ToLower(t.Name)] once every target is counted
  unfoldable pub name_count : List Target → Text → ℕ
  unfolding usable to_lower text_eq
  name_count ts name = length (keep (same_name (to_lower u name)) ts)

  -- the switch of hostAliases
  unfoldable pub alias_of : List Target → List OwnBlock → Target → Text
  unfolding name_count claims
  alias_of ts own t =
      if ltb 1 (name_count ts t.name)
      then codes "nokku/" ++ t.id
      else if claims u own t.name
      then codes "nokku/" ++ t.name
      else t.name

  -- the second loop of hostAliases
  unfoldable pub add_aliases : List Target → List OwnBlock → List Target → Aliases → Aliases
  unfolding alias_of usable
  add_aliases ts own [] m = m
  add_aliases ts own (t ∷ rest) m =
      add_aliases ts own rest (if usable t then (t.id, alias_of ts own t) ∷ m else m)

  -- hostAliases
  unfoldable pub host_aliases : State → List OwnBlock → Aliases
  unfolding add_aliases
  host_aliases s own = add_aliases s.targets own s.targets []

-- one block of renderSSHConfig
unfoldable pub host_block : Places → Text → Text → Target → Text → Text
unfolding config_value
host_block p nk host t user =
    codes "Match originalhost "
    ++ host
    ++ codes " exec "
    ++ config_value (nk ++ codes " prepare " ++ t.id)
    ++ codes "\n\nHost "
    ++ host
    ++ codes "\n    User "
    ++ user
    ++ codes "\n    ProxyCommand "
    ++ nk
    ++ codes " proxy "
    ++ t.id
    ++ codes " %p\n    HostKeyAlias "
    ++ t.id
    ++ codes "\n    CertificateFile "
    ++ config_value (p.certificate t.id)
    ++ codes "\n    IdentityFile "
    ++ config_value p.pub_key
    ++ codes "\n    IdentityAgent "
    ++ config_value p.agent_socket
    ++ codes "\n    UserKnownHostsFile "
    ++ config_value p.known_hosts
    ++ codes
        "\n    IdentitiesOnly yes\n    PasswordAuthentication no\n    StrictHostKeyChecking yes\n    ServerAliveInterval 60\n    LogLevel ERROR\n\n"

-- t.Usernames[0], which a target with an alias has; the source panics on an empty list, which needs
-- two targets of one id.
abbrev pub head_text : List Text → Text
head_text [] = []
head_text (a ∷ rest) = a

-- the loop of renderSSHConfig
unfoldable pub render_targets : Places → Text → Aliases → List Target → Text
unfolding alias_at
render_targets p nk aliases [] = []
render_targets p nk aliases (t ∷ ts) = elim (alias_at aliases t.id) [
  | none ↦ render_targets p nk aliases ts
  | some host ↦ host_block p nk host t (head_text t.usernames) ++ render_targets p nk aliases ts
]

-- renderSSHConfig
unfoldable pub render_ssh_config : Places → State → Aliases → Text → Text
unfolding render_targets host_block
render_ssh_config p s aliases nk =
    codes "# Managed by Nokku. nk regenerates this file, do not edit it.\n\n"
    ++ render_targets p nk aliases s.targets

-- the inner loop of renderKnownHosts
unfoldable pub authority_lines : Text → List Text → Text
unfolding safe_line
authority_lines id [] = []
authority_lines id (k ∷ ks) =
    let rest = authority_lines id ks in
    if safe_line k
    then codes "@cert-authority " ++ (id ++ (codes " " ++ (k ++ (codes "\n" ++ rest))))
    else rest

-- one round of renderKnownHosts
unfoldable pub known_host : Time → State → Target → Text
known_host now s t =
    if manual t
    then (if safe_line (trim_space t.host_public_key)
        then t.id ++ (codes " " ++ (trim_space t.host_public_key ++ codes "\n"))
        else [])
    else elim (ca_by_id s t.ca_id) [
      | none ↦ []
      | some ca ↦ authority_lines t.id (trusted_keys now ca)
    ]

unfoldable pub known_hosts_of : Time → State → List Target → Text
unfolding known_host
known_hosts_of now s [] = []
known_hosts_of now s (t ∷ ts) = known_host now s t ++ known_hosts_of now s ts

-- renderKnownHosts
unfoldable pub render_known_hosts : Time → State → Text
unfolding known_hosts_of
render_known_hosts now s =
    codes "# Managed by Nokku. nk regenerates this file, do not edit it.\n\n"
    ++ known_hosts_of now s s.targets

-- includeLine
unfoldable pub include_line : Places → Text
unfolding config_value
include_line p = codes "Include " ++ config_value p.ssh_config

-- strings.ReplaceAll(s, `"`, "")
unfoldable pub unquoted : Text → Text
unquoted s = keep (λ c. not (c == b'"')) s

-- isInclude
unfoldable pub is_include : Places → Text → Bool
unfolding text_eq
is_include p line = text_eq (unquoted (trim_space line)) (unquoted (include_line p))

-- HasInclude
unfoldable pub has_include : Places → Text → Bool
has_include p content = any (is_include p) (split b'\n' content)

-- What ensureInclude leaves in ~/.ssh/config.
unfoldable pub ensure_include : Places → Text → Text
ensure_include p content =
    if has_include p content then content else include_line p ++ (codes "\n\n" ++ content)

abbrev pub is_newline : ℕ → Bool
is_newline c = c == b'\n'

-- What RemoveInclude leaves in ~/.ssh/config.
unfoldable pub remove_include : Places → Text → Text
remove_include p content =
    if has_include p content
    then trim_left is_newline (join b'\n' (keep (λ l. not (is_include p l)) (split b'\n' content)))
    else content
