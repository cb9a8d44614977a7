-- ===== src/Cmd/Target.antt =====
-- internal/cmd/target.go: which server and which target a command means.
pub mod Found
use nk.Base.{
  ℕ, Bool, true, false, ◌&&◌, ◌||◌, not, List, [], ◌∷◌, ◌++◌, Option, none, some, any, keep, ◌==◌,
  find?, if◌then◌else◌,
}
use nk.Base.Text.{
  Text, codes, text_eq, is_empty, cut, split, trim_space, CaseTables, equal_fold, first_of_texts,
}
use nk.State.{Target, Ca, State, manual}

pub record Remote : Type 0 where
  pub host : Text
  pub port : Text

pub data Error : Type 0 where
  no_host not_root several_targets runs_daemon no_ca_yet several_cas ca_not_found : Error
  host_key_changed : Error

pub data Result {ℓ} (A : Type ℓ) : Type ℓ where
  ok : A → Result A
  err : Error → Result A

-- rootHost, on the first argument
unfoldable pub root_host : Text → Result Text
unfolding cut text_eq
root_host arg =
    let (user, host, found) = cut b'@' arg in
    if is_empty arg
    then err no_host
    else if found && not (text_eq user (codes "root"))
    then err not_root
    else if not found
    then ok arg
    else ok host

-- The part of net.SplitHostPort that the commands use is an argument: the host and the port of an
-- endpoint that has both.
module _ (split_host_port : Text → Option (Text × Text)) where
  -- endpointHost
  unfoldable pub endpoint_host : Text → Text
  endpoint_host ep = elim (split_host_port ep) [ none ↦ ep | some (h, p) ↦ h ]

  -- endpointRemote
  unfoldable pub endpoint_remote : Text → Text → Remote
  endpoint_remote ep port = elim (split_host_port ep) [
    | none ↦ record { host = ep; port = port }
    | some (h, p) ↦ record { host = h; port = first_of_texts port p }
  ]

  -- endpointAddr of internal/ssh/proxy.go; `join_host_port` is net.JoinHostPort.
  unfoldable pub endpoint_addr : (Text → Text → Text) → Text → Text → Text
  endpoint_addr join_host_port ep port = elim (split_host_port ep) [
    | none ↦ join_host_port ep port
    | some (h, p) ↦ ep
  ]

  abbrev pub answers : Text → Target → Bool
  answers host t = text_eq t.name host || any (λ ep. text_eq (endpoint_host ep) host) t.endpoints

  -- findTarget; `ok none` stands for a server that Nokku does not know.
  unfoldable pub find_target : List Target → Text → Result (Option Target)
  unfolding endpoint_host text_eq manual
  find_target targets host = elim (keep (answers host) targets) [
    | [] ↦ ok none
    | t ∷ [] ↦ if not (manual t) then err runs_daemon else ok (some t)
    | t ∷ t' ∷ more ↦ err several_targets
  ]

  -- findRemoteTarget; `resolved` is the host that ssh resolves the alias to.
  unfoldable pub find_remote_target : List Target → Text → Text → Result (Option Target)
  unfolding find_target
  find_remote_target targets host resolved = elim (find_target targets host) [
    | err e ↦ err e
    | ok (some t) ↦ ok (some t)
    | ok none ↦ find_target targets resolved
  ]

-- remote.String
unfoldable pub remote_string : Remote → Text
unfolding text_eq
remote_string r =
    if is_empty r.port || text_eq r.port (codes "22")
    then codes "ssh root@" ++ r.host
    else codes "ssh -p " ++ (r.port ++ (codes " root@" ++ r.host))

-- remote.portArgs
unfoldable pub port_args : Remote → List Text
port_args r = if is_empty r.port then [] else codes "-p" ∷ r.port ∷ []

-- the loop of remote.resolve over the output of `ssh -G`
unfoldable pub resolve_lines : List Text → Remote → Remote
unfolding cut trim_space text_eq
resolve_lines [] r = r
resolve_lines (l ∷ ls) r =
    let (k, v, _) = cut b' ' (trim_space l) in
    resolve_lines ls (
      if text_eq k (codes "hostname")
      then record r { host = v }
      else if text_eq k (codes "port")
      then record r { port = v }
      else r)

-- remote.resolve; the output is `none` where ssh fails.
unfoldable pub resolve : Remote → Option Text → Remote
unfolding resolve_lines split
resolve r none = r
resolve r (some out) = resolve_lines (split b'\n' out) r

-- remote.run's arguments; `control` is the ControlPath option and absent on Windows.
unfoldable pub run_args : Remote → List Text → Text → List Text
unfolding port_args
run_args r control command =
    port_args r
    ++ (codes "-l" ∷ codes "root" ∷ codes "-o" ∷ codes "StrictHostKeyChecking=accept-new" ∷ [])
    ++ control
    ++ (codes "--" ∷ r.host ∷ command ∷ [])

-- one CA, or the error for none and for several
unfoldable pub only_ca : Error → Error → List Ca → Result Ca
only_ca missing several [] = err missing
only_ca missing several (ca ∷ []) = ok ca
only_ca missing several (ca ∷ ca' ∷ more) = err several

module _ (u : CaseTables) where
  -- the loop of resolveCA: an id returns at once, the two lists grow
  unfoldable pub search_ca : Text → List Ca → List Ca → List Ca → Result Ca
  unfolding equal_fold text_eq only_ca
  search_ca ref [] [] folded = only_ca ca_not_found several_cas folded
  search_ca ref [] (e ∷ exact) folded = only_ca ca_not_found several_cas (e ∷ exact)
  search_ca ref (ca ∷ cas) exact folded =
      let by_exact = search_ca ref cas (exact ++ ca ∷ []) folded in
      let by_fold = search_ca ref cas exact (folded ++ ca ∷ []) in
      let next = search_ca ref cas exact folded in
      if text_eq ca.id ref
      then ok ca
      else if text_eq ca.name ref
      then by_exact
      else if equal_fold u ca.name ref
      then by_fold
      else next

  -- resolveCA
  unfoldable pub resolve_ca : List Ca → Text → Result Ca
  unfolding search_ca
  resolve_ca cas ref =
      if is_empty ref
      then elim (find? (λ (ca : Ca). ca.default) cas) [
        | some ca ↦ ok ca
        | none ↦ only_ca no_ca_yet several_cas cas
      ]
      else search_ca ref cas [] []

-- checkHostKey; `ok` says whether the warning about a changed key is printed.
unfoldable pub check_host_key : Text → Text → Bool → Result Bool
unfolding text_eq
check_host_key pinned seen accept =
    if is_empty pinned || text_eq pinned seen
    then ok false
    else if not accept
    then err host_key_changed
    else ok true
