-- ===== src/Tests/Manual.antt =====
-- internal/manual at concrete inputs.
use nk.Base.{◌≡◌, refl, true, List, [], ◌∷◌, ◌++◌, some, All, Member}
use nk.Base.Text.{Text, codes}
use nk.Manual.{Host, safe_name}
use nk.Manual.Plan.{File, principals_path, principals_file, new_plan, new_plan_lem}
use nk.Manual.Script.{q}
use nk.Manual.Script.Shell.{shell_word, shell_word-q}

abbrev passwd : List Text
passwd =
    codes "root:x:0:0:root:/root:/bin/bash"
    ∷ codes "daemon:x:1:1:daemon:/usr/sbin:/usr/sbin/nologin"
    ∷ codes "ann:x:1000:1000::/home/ann:/bin/zsh"
    ∷ []

abbrev host : Host
host = record {
  accounts = codes "ann" ∷ codes "root" ∷ [];
  host_key = codes "ssh-ed25519 AAAA";
  principals = codes "root" ∷ codes "gone" ∷ codes "../x" ∷ [];
}

abbrev grants : List (Text × List Text)
grants = (codes "root", codes "user:1" ∷ []) ∷ []

new_plan_lem_example :
    (Member (codes "root") host.accounts
      → Member (principals_file grants (codes "root")) (new_plan (codes "ca") grants host).files)
    × All
        (λ path.
          ((name : Text) × Member name host.principals
            × (safe_name name ≡ true)
            × (path ≡ principals_path name))
          × All (λ (f : File). ¬ (f.path ≡ path)) (new_plan (codes "ca") grants host).files)
        (new_plan (codes "ca") grants host).stale
new_plan_lem_example = new_plan_lem (codes "ca") grants host (codes "root")

shell_word-q_example :
    shell_word (q (codes "it's $x") ++ codes " next") ≡ some (codes "it's $x", codes " next")
shell_word-q_example = shell_word-q (codes "it's $x") (codes " next") refl
