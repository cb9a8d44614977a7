-- ===== src/Tests/Config.antt =====
-- internal/ssh's generated files and the user's own config at concrete inputs.
use nk.Base.{◌⊎◌, ◌≡◌, ◌≢◌, refl, inl, inr, Bool, true, false, List, [], ◌∷◌, ◌++◌, some, Member}
use nk.Base.Text.{Text, codes, text_eq, text_eq_iff, split, to_lower}
use nk.State.{Target}
use nk.State.Access.{from_access}
use nk.State.Safe.{from_access-IsSafe}
use nk.Ssh.Own.{OwnBlock}
use nk.Ssh.Config.{
  Places, header, config_value, alias_at, host_aliases, render_ssh_config, render_known_hosts,
}
use nk.Ssh.Config.Quote.{read_argument, read-config_value}
use nk.Ssh.Config.Aliases.Apart.{Clash, host_aliases-apart}
use nk.Ssh.Config.OneLine.{id-OneLine, join_lines, keyed, literal}
use nk.Ssh.Config.Lines.{IsOneLine, config_lines, render_ssh_config-lines}
use nk.Ssh.Config.KnownHosts.{all_known_lines, render_known_hosts-lines}
use nk.Tests.Data.{web, db, web_id, db_id, message, synced, plain_case}

-- The user's own config has a block for db, which is not the jump host's.
abbrev own : List OwnBlock
own = record { patterns = codes "d?" ∷ codes "!jump" ∷ []; dest = true } ∷ []

abbrev places : Places
places = record {
  ssh_config = codes "/home/ann/.config/nk/ssh_config";
  pub_key = codes "/home/ann/.config/nk/id.pub";
  agent_socket = codes "/home/ann/.config/nk/agent.sock";
  known_hosts = codes "/home/ann/.config/nk/known_hosts";
  certificate = λ i. codes "/home/ann/.config/nk/certs/" ++ (i ++ codes "-cert.pub");
}

read-config_value_example :
    read_argument (config_value (codes "C:\\nk \"x\"") ++ codes " next")
    ≡ some (codes "C:\\nk \"x\"", codes " next")
read-config_value_example = read-config_value (codes "C:\\nk \"x\"") (codes " next")

render_known_hosts-lines_example :
    split b'\n' (render_known_hosts 0 synced)
    ≡ header ++ (all_known_lines 0 synced synced.targets ++ ([] ∷ []))
render_known_hosts-lines_example = render_known_hosts-lines 0 synced (from_access-IsSafe message)

differ : (a b : Text) → text_eq a b ≡ false → a ≢ b
differ a b h e = clash (text_eq a b) h ((text_eq_iff a b).1 e)
  where
    clash : (x : Bool) → x ≡ false → x ≢ true
    clash true p q = cc
    clash false p q = cc

pairs :
    (P : Target → Target → Type 0) (a b : Target)
    → P a a
    → P a b
    → P b a
    → P b b
    → (t t' : Target) → Member t (a ∷ b ∷ [])
    → Member t' (a ∷ b ∷ [])
    → P t t'
pairs P a b aa ab ba bb t t' (inl e) (inl f) = rw (e, f) aa
pairs P a b aa ab ba bb t t' (inl e) (inr (inl f)) = rw (e, f) ab
pairs P a b aa ab ba bb t t' (inr (inl e)) (inl f) = rw (e, f) ba
pairs P a b aa ab ba bb t t' (inr (inl e)) (inr (inl f)) = rw (e, f) bb
pairs P a b aa ab ba bb t t' (inr (inr m)) n = elim m [ ]
pairs P a b aa ab ba bb t t' (inl e) (inr (inr n)) = elim n [ ]
pairs P a b aa ab ba bb t t' (inr (inl e)) (inr (inr n)) = elim n [ ]

host_aliases-apart_example :
    (to_lower plain_case (codes "web") ≢ to_lower plain_case (codes "nokku/db"))
    ⊎ Clash plain_case synced.targets web_id db_id
unfolding host_aliases from_access alias_at text_eq
host_aliases-apart_example =
    host_aliases-apart plain_case synced own web_id db_id (codes "web") (codes "nokku/db")
      (from_access-IsSafe message) (differ web_id db_id refl) refl refl

distinct :
    (t t' : Target) → Member t synced.targets → Member t' synced.targets → t.id ≡ t'.id → t ≡ t'
unfolding from_access text_eq
distinct =
    pairs (λ t t'. t.id ≡ t'.id → t ≡ t') web db (λ e. refl)
      (λ e. absurd (differ web_id db_id refl e)) (λ e. absurd (differ db_id web_id refl e))
      (λ e. refl)

paths : IsOneLine places (codes "nk")
paths = record {
  ssh_config_line = literal "/home/ann/.config/nk/ssh_config" refl;
  pub_key_line = literal "/home/ann/.config/nk/id.pub" refl;
  agent_socket_line = literal "/home/ann/.config/nk/agent.sock" refl;
  known_hosts_line = literal "/home/ann/.config/nk/known_hosts" refl;
  certificate_line = λ i h.
      keyed "/home/ann/.config/nk/certs/" (i ++ codes "-cert.pub") refl
        (join_lines i (codes "-cert.pub") (id-OneLine i h.0) (literal "-cert.pub" refl));
  nk_line = literal "nk" refl;
}

render_ssh_config-lines_example :
    split b'\n' (render_ssh_config places synced (host_aliases plain_case synced own) (codes "nk"))
    ≡ header
      ++ (config_lines places (codes "nk") (host_aliases plain_case synced own) synced.targets
          ++ ([] ∷ []))
render_ssh_config-lines_example =
    render_ssh_config-lines places (codes "nk") paths plain_case synced own
      (from_access-IsSafe message) distinct
