-- ===== src/Ssh/Config/Lines.antt =====
-- internal/ssh/config.go: the lines of the generated ssh_config and known_hosts.
use nk.Base.{
  ◌≡◌, refl, sym, inl, inr, true, List, [], ◌∷◌, ◌++◌, none, some, All, All-append, Member,
  Option-cases, All-Member, append_assoc,
}
use nk.Base.Text.{Text, codes, CaseTables, split}
use nk.Base.Lines.{Lacks, unlines, unlines-append, split-unlines}
use nk.State.{Target, State}
use nk.State.Safe.{IsSafe, IsId}
use nk.Ssh.Own.{OwnBlock}
use nk.Ssh.Config.{
  Places, header, usable, config_value, Aliases, alias_at, alias_of, host_aliases, host_block,
  head_text, render_targets, render_ssh_config,
}
use nk.Ssh.Config.Aliases.{alias_of-chars}
use nk.Ssh.Config.Aliases.Apart.{MadeFor, host_aliases-MadeFor}
use nk.Ssh.Config.OneLine.{
  OneLine, join_lines, config_value-OneLine, id-OneLine, alias-OneLine, usable-account,
  account-OneLine, literal, keyed,
}

-- The block of a target, line by line.
abbrev pub host_lines : Places → Text → Text → Target → Text → List Text
host_lines p nk host t user =
    (codes "Match originalhost "
      ++ (host ++ (codes " exec " ++ config_value (nk ++ (codes " prepare " ++ t.id)))))
    ∷ []
    ∷ (codes "Host " ++ host)
    ∷ (codes "    User " ++ user)
    ∷ (codes "    ProxyCommand " ++ (nk ++ (codes " proxy " ++ (t.id ++ codes " %p"))))
    ∷ (codes "    HostKeyAlias " ++ t.id)
    ∷ (codes "    CertificateFile " ++ config_value (p.certificate t.id))
    ∷ (codes "    IdentityFile " ++ config_value p.pub_key)
    ∷ (codes "    IdentityAgent " ++ config_value p.agent_socket)
    ∷ (codes "    UserKnownHostsFile " ++ config_value p.known_hosts)
    ∷ codes "    IdentitiesOnly yes"
    ∷ codes "    PasswordAuthentication no"
    ∷ codes "    StrictHostKeyChecking yes"
    ∷ codes "    ServerAliveInterval 60"
    ∷ codes "    LogLevel ERROR"
    ∷ []
    ∷ []

host_block-unlines :
    (p : Places) (nk host : Text) (t : Target) (user : Text)
    → host_block p nk host t user ≡ unlines (host_lines p nk host t user)
unfolding host_block
host_block-unlines p nk host t user = simp append_assoc

-- The blocks of the targets that have an alias.
abbrev pub config_lines : Places → Text → Aliases → List Target → List Text
config_lines p nk aliases [] = []
config_lines p nk aliases (t ∷ ts) = elim (alias_at aliases t.id) [
  | none ↦ config_lines p nk aliases ts
  | some host ↦ host_lines p nk host t (head_text t.usernames) ++ config_lines p nk aliases ts
]

render_targets-unlines :
    (p : Places) (nk : Text) (aliases : Aliases) (ts : List Target)
    → render_targets p nk aliases ts ≡ unlines (config_lines p nk aliases ts)
unfolding render_targets
render_targets-unlines p nk aliases [] = refl
render_targets-unlines p nk aliases (t ∷ ts) = elim (Option-cases (alias_at aliases t.id)) [
  | inl e ↦ rw (e, render_targets, config_lines) (render_targets-unlines p nk aliases ts)
  | inr (host, e) ↦
      rw
        (
          e,
          render_targets,
          config_lines,
          host_block-unlines p nk host t (head_text t.usernames),
          render_targets-unlines p nk aliases ts,
        )
        (sym (
          unlines-append (host_lines p nk host t (head_text t.usernames))
            (config_lines p nk aliases ts)))
]

-- Paths and the command hold no newline.
pub record IsOneLine (p : Places) (nk : Text) : Type 0 where
  pub ssh_config_line : Lacks b'\n' p.ssh_config
  pub pub_key_line : Lacks b'\n' p.pub_key
  pub agent_socket_line : Lacks b'\n' p.agent_socket
  pub known_hosts_line : Lacks b'\n' p.known_hosts
  pub certificate_line : (i : Text) → IsId i → Lacks b'\n' (p.certificate i)
  pub nk_line : Lacks b'\n' nk

option_lines : All OneLine (
    codes "    IdentitiesOnly yes"
    ∷ codes "    PasswordAuthentication no"
    ∷ codes "    StrictHostKeyChecking yes"
    ∷ codes "    ServerAliveInterval 60"
    ∷ codes "    LogLevel ERROR"
    ∷ []
    ∷ [])
option_lines =
    let a = literal "    IdentitiesOnly yes" refl in
    let b = literal "    PasswordAuthentication no" refl in
    let c = literal "    StrictHostKeyChecking yes" refl in
    let d = literal "    ServerAliveInterval 60" refl in
    let e = literal "    LogLevel ERROR" refl in (a, (b, (c, (d, (e, (tt, tt))))))

module _ (p : Places) (nk : Text) (paths : IsOneLine p nk) where
  prepare-OneLine : (t : Target) → IsId t.id → OneLine (nk ++ (codes " prepare " ++ t.id))
  prepare-OneLine t i =
      join_lines nk _ paths.nk_line (keyed " prepare " t.id refl (id-OneLine t.id i.0))

  proxy-OneLine :
      (t : Target) → IsId t.id → OneLine (nk ++ (codes " proxy " ++ (t.id ++ codes " %p")))
  proxy-OneLine t i = join_lines nk _ paths.nk_line (
      keyed " proxy " _ refl
        (join_lines t.id (codes " %p") (id-OneLine t.id i.0) (literal " %p" refl)))

  host_lines-OneLine :
      (host : Text) (t : Target) (user : Text)
      → OneLine host
      → OneLine user
      → IsId t.id
      → All OneLine (host_lines p nk host t user)
  host_lines-OneLine host t user h hu i =
      let exec = keyed " exec " _ refl (config_value-OneLine _ (prepare-OneLine t i)) in
      let first = keyed "Match originalhost " _ refl (join_lines host _ h exec) in
      let host_line = keyed "Host " host refl h in
      let user_line = keyed "    User " user refl hu in
      let proxy = keyed "    ProxyCommand " _ refl (proxy-OneLine t i) in
      let key_alias = keyed "    HostKeyAlias " t.id refl (id-OneLine t.id i.0) in
      let cert =
        keyed "    CertificateFile " _ refl
          (config_value-OneLine _ (paths.certificate_line t.id i)) in
      let identity = keyed "    IdentityFile " _ refl (config_value-OneLine _ paths.pub_key_line) in
      let agent =
        keyed "    IdentityAgent " _ refl (config_value-OneLine _ paths.agent_socket_line) in
      let known =
        keyed "    UserKnownHostsFile " _ refl (config_value-OneLine _ paths.known_hosts_line) in
      (
        first,
        (
          tt,
          (
            host_line,
            (user_line, (proxy, (key_alias, (cert, (identity, (agent, (known, option_lines))))))),
          ),
        ),
      )

  config_lines-OneLine :
      (u : CaseTables) (s : State) (own : List OwnBlock) (ts : List Target)
      → All IsSafe s.targets
      → ((t t' : Target) → Member t s.targets → Member t' s.targets → t.id ≡ t'.id → t ≡ t')
      → ((t : Target) → Member t ts → Member t s.targets)
      → All OneLine (config_lines p nk (host_aliases u s own) ts)
  config_lines-OneLine u s own [] safe distinct inside = tt
  config_lines-OneLine u s own (t ∷ ts) safe distinct inside =
      let rest = config_lines-OneLine u s own ts safe distinct (λ x m. inside x (inr m)) in
      elim (Option-cases (alias_at (host_aliases u s own) t.id)) [
        | inl e ↦ rw (e, config_lines) rest
        | inr (host, e) ↦
            let m = inside t (inl refl) in
            rw (e, config_lines)
              (All-append OneLine (host_lines p nk host t (head_text t.usernames))
                (config_lines p nk (host_aliases u s own) ts)
                (block host m e (host_aliases-MadeFor u s own t.id host e)) rest)
      ]
    where
      block :
          (host : Text)
          → Member t s.targets
          → alias_at (host_aliases u s own) t.id ≡ some host
          → MadeFor u s.targets own s.targets t.id host
          → All OneLine (host_lines p nk host t (head_text t.usernames))
      block host m e (t', m', us, ei, ea) =
          let safe_id = (All-Member IsSafe s.targets t safe m).id_safe in
          let one = distinct t' t m' m ei in
          let us' : usable t ≡ true = rw one at us in
          let chars = alias_of-chars u s.targets own t safe_id us' in
          let ea' : host ≡ alias_of u s.targets own t = rw one at ea in
          host_lines-OneLine host t (head_text t.usernames) (rw ea' (alias-OneLine _ chars))
            (account-OneLine t.usernames (usable-account t us')) safe_id

  -- The generated ssh_config consists of exactly the header and, for each target with an alias, the
  -- sixteen lines of its block: nothing that the backend sent adds, ends or splits a line. It wants
  -- paths without newlines, a safe snapshot, and no two targets with one id.
  pub render_ssh_config-lines :
      (u : CaseTables) (s : State) (own : List OwnBlock)
      → All IsSafe s.targets
      → ((t t' : Target) → Member t s.targets → Member t' s.targets → t.id ≡ t'.id → t ≡ t')
      → split b'\n' (render_ssh_config p s (host_aliases u s own) nk)
        ≡ header ++ (config_lines p nk (host_aliases u s own) s.targets ++ ([] ∷ []))
  unfolding render_ssh_config
  render_ssh_config-lines u s own safe distinct =
      let body = config_lines p nk (host_aliases u s own) s.targets in
      let fine = config_lines-OneLine u s own s.targets safe distinct (λ t m. m) in
      rw (render_targets-unlines p nk (host_aliases u s own) s.targets) (
        split-unlines (header ++ body) (
          literal "# Managed by Nokku. nk regenerates this file, do not edit it." refl,
          (tt, fine),
        ))
