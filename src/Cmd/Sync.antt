-- ===== src/Cmd/Sync.antt =====
-- internal/cmd/target.go: targetSync and targetDelete. What the commands ask of the host, of Nokku
-- and of the local state is a sequence of effects; the answers are an argument.
pub mod Run
pub mod Order
pub mod Promise
pub mod Success
use nk.Base.{
  ℕ, ◌≡◌, Bool, true, false, ◌&&◌, ◌||◌, not, List, [], ◌∷◌, ◌++◌, Option, none, some, ◌==◌,
  if◌then◌else◌,
}
use nk.Base.Text.{Text, codes, text_eq, is_empty, trim_space, contains, CaseTables}
use nk.Base.Clock.{Time}
use nk.State.{Target, Ca, State, trusted_keys, ca_by_id}
use nk.Manual.{Host, parse_probe}
use nk.Client.Grant.{Grant}
use nk.Manual.Plan.{Plan, new_plan, grants_of}
use nk.Manual.Script.{script, probe_command, remove_script}
use nk.Cmd.Target.{
  Remote, Error, root_host, endpoint_remote, check_host_key, find_remote_target, resolve_ca,
  resolve,
}
use nk.Cmd.Target

-- What a command does outside its own process, in order.
pub data Effect : Type 0 where
  run_on_host : Remote → Text → Text → Effect
  create_target : Target → List Text → List Grant → Effect
  read_principals : Target → Effect
  report_target : Target → List Text → Text → Effect
  delete_target : Target → Effect
  refresh : Effect

-- The answers: the output of a command on the host and whether it succeeded, the target that Nokku
-- created, the principals of a target, and whether a report, a deletion and a refresh succeeded.
pub record World : Type 0 where
  pub on_host : Remote → Text → Text → Text × Bool
  pub created : Target → Option Target
  pub principals_of : Target → Option (List (Text × List Text))
  pub reported : Target → List Text → Text → Bool
  pub deleted : Target → Bool
  pub refreshed : Bool

pub data Failure : Type 0 where
  bad_target : Error → Failure
  listing_failed bad_grants : Failure
  no_ca connect_failed no_host_key : Failure
  key_changed : Failure
  no_account : Text → Failure
  create_failed principals_failed write_failed report_failed : Failure
  unknown_target cleanup_failed delete_failed : Failure

-- How a command ends, and its effects up to there.
pub record Outcome (A : Type 0) : Type 0 where
  pub effects : List Effect
  pub failure : Option Failure
  pub value : A

-- the loop of probe over the seeds
unfoldable pub missing_account : List Text → List Grant → Option Text
unfolding contains
missing_account accounts [] = none
missing_account accounts (g ∷ gs) =
    let rest = missing_account accounts gs in
    if not (contains accounts g.account) then some g.account else rest

abbrev pub probed : Option Failure → Host → Remote → Outcome Host
probed f h dest = record {
  effects = run_on_host dest probe_command [] ∷ [];
  failure = f;
  value = h;
}

abbrev pub no_host_read : Host
no_host_read = record { accounts = []; host_key = []; principals = [] }

-- the checks of probe on what the host printed
unfoldable pub check_host : Text → List Grant → Bool → Host × Bool → Option Failure
unfolding check_host_key missing_account
check_host pinned seeds accept (h, false) = some no_host_key
check_host pinned seeds accept (h, true) = elim (check_host_key pinned h.host_key accept) [
  | Target.err e ↦ some key_changed
  | Target.ok warned ↦ elim (missing_account h.accounts seeds) [
    | some account ↦ some (no_account account)
    | none ↦ none
  ]
]

unfoldable pub read_host : Remote → Text → List Grant → Bool → Text × Bool → Outcome Host
unfolding parse_probe check_host
read_host dest pinned seeds accept (out, false) = probed (some connect_failed) no_host_read dest
read_host dest pinned seeds accept (out, true) =
    let found = parse_probe out in probed (check_host pinned seeds accept found) found.0 dest

-- probe
unfoldable pub probe : World → Remote → Text → List Grant → Bool → Outcome Host
unfolding read_host
probe w dest pinned seeds accept =
    read_host dest pinned seeds accept (w.on_host dest probe_command [])

-- What the flags of nk sync and nk rm say.
pub record Flags : Type 0 where
  pub port : Text
  pub name : Text
  pub ca_ref : Text
  pub tags : List Text
  pub dry_run : Bool
  pub accept_host_key : Bool
  pub keep_host : Bool

-- A sync that knows its server: where to connect, the target, its CA, and the grants to seed.
pub record Job : Type 0 where
  pub dest : Remote
  pub target : Target
  pub ca : Ca
  pub seeds : List Grant

pub data Prepared : Type 0 where
  refused : Failure → Prepared
  ready : Job → Prepared

-- `ca == nil || strings.TrimSpace(ca.PublicKey) == ""`
unfoldable pub with_ca : Remote → Target → List Grant → Option Ca → Prepared
unfolding trim_space
with_ca dest t seeds none = refused no_ca
with_ca dest t seeds (some ca) =
    if is_empty (trim_space ca.public_key)
    then refused no_ca
    else ready (record { dest = dest; target = t; ca = ca; seeds = seeds })

-- How Nokku and ssh answer before a sync connects: the listed CAs, the resolved grants, and what
-- `ssh -G` prints.
pub record Lookups : Type 0 where
  pub listed : Option (List Ca)
  pub resolved_grants : Option (List Grant)
  pub resolved : Remote → Option Text

pub data New : Type 0 where
  not_new : Failure → New
  new_one : Target → Ca → New

abbrev first_endpoint : List Text → Option Text
first_endpoint [] = none
first_endpoint (e ∷ es) = some e

module _ (split_host_port : Text → Option (Text × Text)) (join_host_port : Text → Text → Text)
    (u : CaseTables) where
  -- Reached by name, a target is connected to where it lives.
  unfoldable pub dest_of : Target → Text → Remote → Remote
  unfolding endpoint_remote text_eq
  dest_of t host dest = elim (first_endpoint t.endpoints) [
    | none ↦ dest
    | some ep ↦ if text_eq t.name host then endpoint_remote split_host_port ep dest.port else dest
  ]

  -- newTarget
  unfoldable pub new_target : Lookups → Flags → Remote → New
  unfolding resolve_ca resolve trim_space text_eq
  new_target l f dest = elim l.listed [
    | none ↦ not_new listing_failed
    | some cas ↦ elim (resolve_ca u cas f.ca_ref) [
      | Target.err e ↦ not_new (bad_target e)
      | Target.ok ca ↦
          let addr = resolve dest (l.resolved dest) in
          let endpoint =
            if not (is_empty addr.port) && not (text_eq addr.port (codes "22"))
            then join_host_port addr.host addr.port
            else addr.host in
          new_one
            (record {
              id = [];
              ca_id = ca.id;
              daemon_id = [];
              name = trim_space f.name;
              endpoints = endpoint ∷ [];
              usernames = [];
              host_public_key = [];
              metadata = [];
            })
            ca
    ]
  ]

  -- targetSync, up to the check of the CA
  unfoldable pub prepare : State → Lookups → Flags → Text → Prepared
  unfolding root_host find_remote_target dest_of new_target with_ca ca_by_id
  prepare s l f arg = elim (root_host arg) [
    | Target.err e ↦ refused (bad_target e)
    | Target.ok host ↦
        let dest : Remote = record { host = host; port = f.port } in
        elim (find_remote_target split_host_port s.targets host
          (resolve dest (l.resolved dest)).host) [
            | Target.err e ↦ refused (bad_target e)
            | Target.ok (some t) ↦ with_ca (dest_of t host dest) t [] (ca_by_id s t.ca_id)
            | Target.ok none ↦ elim (new_target l f dest) [
              | not_new e ↦ refused e
              | new_one t ca ↦ elim l.resolved_grants [
                | none ↦ refused bad_grants
                | some seeds ↦ with_ca dest t seeds (some ca)
              ]
            ]
          ]
  ]
