-- ===== src/Ssh/Written.antt =====
-- internal/ssh/config.go: WriteConfigs, ensureInclude and RemoveInclude on the files, and nkCommand.
-- Whether a write succeeds is an argument; one that fails leaves the file.
use nk.Base.{
  ◌≡◌, refl, inl, inr, Bool, true, false, not, List, [], Option, none, some, if◌then◌else◌,
  Bool-cases,
}
use nk.Base.Text.{Text, CaseTables, split}
use nk.Base.Clock.{Time}
use nk.State.{State}
use nk.Ssh.Own.{OwnBlock}
use nk.Ssh.Config.{
  Places, host_aliases, render_ssh_config, render_known_hosts, has_include, ensure_include,
  remove_include,
}
use nk.Ssh.Config.OneLine.{OneLine}
use nk.Ssh.Config.Include.{empty_not_include, has_include-ensure_include}

-- What is found at ~/.ssh/config.
pub data UserFile : Type 0 where
  no_file unreadable : UserFile
  contents : Text → UserFile

pub data FileError : Type 0 where
  config_not_written hosts_not_written not_read not_updated : FileError

pub record SshFiles : Type 0 where
  pub ssh_config : Option Text
  pub known_hosts : Option Text
  pub user_config : UserFile

-- Which writes succeed.
pub record Writable : Type 0 where
  pub ssh_config_ok : Bool
  pub known_hosts_ok : Bool
  pub user_config_ok : Bool

-- A write of the user's file, where its text is not the one it has.
unfoldable pub update_user : Bool → UserFile → Text → UserFile × Option FileError
update_user ok old new = if ok then (contents new, none) else (old, some not_updated)

unfoldable pub include_in : Places → Bool → UserFile → Text → UserFile × Option FileError
unfolding update_user
include_in p ok file data_read =
    if has_include p data_read
    then (file, none)
    else update_user ok file (ensure_include p data_read)

-- ensureInclude
unfoldable pub add_include : Places → Bool → UserFile → UserFile × Option FileError
unfolding include_in
add_include p ok unreadable = (unreadable, some not_read)
add_include p ok no_file = include_in p ok no_file []
add_include p ok (contents d) = include_in p ok (contents d) d

-- RemoveInclude
unfoldable pub drop_include : Places → Bool → UserFile → UserFile × Option FileError
unfolding update_user
drop_include p ok unreadable = (unreadable, some not_read)
drop_include p ok no_file = (no_file, none)
drop_include p ok (contents d) =
    if not (has_include p d)
    then (contents d, none)
    else update_user ok (contents d) (remove_include p d)

-- WriteConfigs
unfoldable pub write_configs :
    CaseTables
    → Places
    → Time
    → Text
    → List OwnBlock
    → Writable
    → State
    → SshFiles
    → SshFiles × Option FileError
unfolding add_include
write_configs u p now nk own w s files =
    if not w.ssh_config_ok
    then (files, some config_not_written)
    else let first : SshFiles = record files {
      ssh_config = some (render_ssh_config p s (host_aliases u s own) nk);
    } in
      if not w.known_hosts_ok
      then (first, some hosts_not_written)
      else let added = add_include p w.user_config_ok files.user_config in
        (
          record first { known_hosts = some (render_known_hosts now s); user_config = added.0 },
          added.1,
        )

-- How WriteConfigs may end: without an error the two files of nk are rendered from the state and the
-- user's config includes nk's; with an error the user's config is as before.
abbrev pub IsWritten :
    CaseTables
    → Places
    → Time
    → Text
    → List OwnBlock
    → State
    → UserFile
    → SshFiles
    → Option FileError
    → Type 0
IsWritten u p now nk own s old files (some e) = files.user_config ≡ old
IsWritten u p now nk own s old files none =
    (files.ssh_config ≡ some (render_ssh_config p s (host_aliases u s own) nk))
    × (files.known_hosts ≡ some (render_known_hosts now s))
    × ((d : Text) × (files.user_config ≡ contents d) × (has_include p d ≡ true))

-- What ensureInclude leaves.
abbrev IsIncluded : Places → UserFile → UserFile × Option FileError → Type 0
IsIncluded p old (file, some e) = file ≡ old
IsIncluded p old (file, none) = (d : Text) × (file ≡ contents d) × (has_include p d ≡ true)

update_user-IsIncluded :
    (p : Places) (ok : Bool) (old : UserFile) (d : Text)
    → OneLine p.ssh_config
    → IsIncluded p old (update_user ok old (ensure_include p d))
unfolding update_user
update_user-IsIncluded p true old d h = (ensure_include p d, refl, has_include-ensure_include p d h)
update_user-IsIncluded p false old d h = refl

has_include-empty : (p : Places) → has_include p [] ≡ false
unfolding has_include split
has_include-empty p = rw (empty_not_include p) refl

add_include-IsIncluded :
    (p : Places) (ok : Bool) (file : UserFile)
    → OneLine p.ssh_config
    → IsIncluded p file (add_include p ok file)
unfolding add_include include_in
add_include-IsIncluded p ok unreadable h = refl
add_include-IsIncluded p ok no_file h =
    rw (has_include-empty p) (update_user-IsIncluded p ok no_file [] h)
add_include-IsIncluded p ok (contents d) h = elim (Bool-cases (has_include p d)) [
  | inl e ↦ rw e (d, refl, e)
  | inr e ↦ rw e (update_user-IsIncluded p ok (contents d) d h)
]

with_added-IsWritten :
    (u : CaseTables) (p : Places) (now : Time) (nk : Text) (own : List OwnBlock) (s : State)
    (old : UserFile) (files : SshFiles) (o : UserFile × Option FileError)
    → files.ssh_config ≡ some (render_ssh_config p s (host_aliases u s own) nk)
    → files.known_hosts ≡ some (render_known_hosts now s)
    → IsIncluded p old o
    → IsWritten u p now nk own s old (record files { user_config = o.0 }) o.1
with_added-IsWritten u p now nk own s old files (file, none) a b h = (a, b, h)
with_added-IsWritten u p now nk own s old files (file, some e) a b h = h

-- WriteConfigs without an error leaves an ssh_config and a known_hosts rendered from the state, and
-- a user's config that includes the former; with an error the user's config is as before.
pub write_configs-IsWritten :
    (u : CaseTables) (p : Places) (now : Time) (nk : Text) (own : List OwnBlock) (w : Writable)
    (s : State) (files : SshFiles)
    → OneLine p.ssh_config
    → let r = write_configs u p now nk own w s files in
      IsWritten u p now nk own s files.user_config r.0 r.1
unfolding write_configs
write_configs-IsWritten u p now nk own w s files line = elim (Bool-cases w.ssh_config_ok) [
  | inr e ↦ simp e refl
  | inl e ↦ elim (Bool-cases w.known_hosts_ok) [
    | inr f ↦ simp (e, f) refl
    | inl f ↦
        let both : SshFiles = record {
          ssh_config = some (render_ssh_config p s (host_aliases u s own) nk);
          known_hosts = some (render_known_hosts now s);
          user_config = files.user_config;
        } in
        simp (e, f)
          (with_added-IsWritten u p now nk own s files.user_config both _ refl refl
            (add_include-IsIncluded p w.user_config_ok files.user_config line))
  ]
]

include_in-succeeds :
    (p : Places) (file : UserFile) (d : Text) → (include_in p true file d).1 ≡ none
unfolding include_in update_user
include_in-succeeds p file d = elim (Bool-cases (has_include p d)) [
  | inl e ↦ rw e refl
  | inr e ↦ rw e refl
]

add_include-succeeds :
    (p : Places) (file : UserFile) → ¬ (file ≡ unreadable) → (add_include p true file).1 ≡ none
unfolding add_include
add_include-succeeds p unreadable h = absurd (h refl)
add_include-succeeds p no_file h = include_in-succeeds p no_file []
add_include-succeeds p (contents d) h = include_in-succeeds p (contents d) d

-- Where every write succeeds and the user's config can be read or is not there, WriteConfigs has no
-- error.
pub write_configs-succeeds :
    (u : CaseTables) (p : Places) (now : Time) (nk : Text) (own : List OwnBlock) (w : Writable)
    (s : State) (files : SshFiles)
    → (w.ssh_config_ok ≡ true) × (w.known_hosts_ok ≡ true) × (w.user_config_ok ≡ true)
    → ¬ (files.user_config ≡ unreadable)
    → (write_configs u p now nk own w s files).1 ≡ none
unfolding write_configs
write_configs-succeeds u p now nk own w s files (a, b, c) h =
    simp (a, b, c) (add_include-succeeds p files.user_config h)
