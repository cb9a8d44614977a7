-- ===== src/Cmd/Sync/Run.antt =====
-- internal/cmd/target.go: applyPlan, targetSync and targetDelete, with their effects behind connect.
use nk.Base.{Bool, ◌&&◌, not, List, [], ◌∷◌, ◌++◌, Option, none, some, if◌then◌else◌}
use nk.Base.Text.{Text, codes, is_empty, join, CaseTables}
use nk.Base.Clock.{Time}
use nk.State.{Target, State, trusted_keys}
use nk.Manual.{Host}
use nk.Manual.Plan.{Plan, new_plan}
use nk.Manual.Script.{script, remove_script}
use nk.Cmd.Target.{Remote, Result, root_host, find_remote_target, resolve}
use nk.Cmd.Target
use nk.Cmd.Sync.{
  Effect, run_on_host, create_target, read_principals, report_target, delete_target, refresh, World,
  Failure, bad_target, create_failed, principals_failed, write_failed, report_failed,
  unknown_target, cleanup_failed, delete_failed, Outcome, probe, Flags, Job, Prepared, refused,
  ready, Lookups, dest_of, prepare,
}

abbrev pub sh : Text
sh = codes "sh -s"

-- The effects of a command, with others before them.
abbrev pub after : {A : Type 0} → List Effect → Outcome A → Outcome A
after es o = record { effects = es ++ o.effects; failure = o.failure; value = o.value }

abbrev pub stopped : {A : Type 0} → Failure → A → Outcome A
stopped f a = record { effects = []; failure = some f; value = a }

abbrev pub done : {A : Type 0} → A → Outcome A
done a = record { effects = []; failure = none; value = a }

-- applyPlan, behind its run on the host. A failed refresh is only a warning.
unfoldable pub report : World → Target → Host → Plan → Outcome (Option Plan)
report w t h plan = after (report_target t h.accounts h.host_key ∷ []) (
    if w.reported t h.accounts h.host_key
    then after (refresh ∷ []) (done (some plan))
    else stopped report_failed (some plan))

-- applyPlan; the Boolean is whether the run on the host succeeded.
unfoldable pub apply_plan : World → Target → Remote → Host → Plan → Outcome (Option Plan)
unfolding report
apply_plan w t dest h plan = after (run_on_host dest sh (script plan) ∷ []) (
    if (w.on_host dest sh (script plan)).1
    then report w t h plan
    else stopped write_failed (some plan))

-- The plan of targetSync, which a dry run only shows.
unfoldable pub planned :
    World → Time → Bool → Job → Target → Host → List (Text × List Text) → Outcome (Option Plan)
unfolding apply_plan trusted_keys join new_plan
planned w now dry_run job t h grants =
    let plan = new_plan (join b'\n' (trusted_keys now job.ca)) grants h in
    if dry_run then done (some plan) else apply_plan w t job.dest h plan

-- The principals, which only a target with an id has.
unfoldable pub with_principals : World → Time → Bool → Job → Target → Host → Outcome (Option Plan)
unfolding planned
with_principals w now dry_run job t h =
    if is_empty t.id
    then planned w now dry_run job t h []
    else after (read_principals t ∷ []) (elim (w.principals_of t) [
      | none ↦ stopped principals_failed none
      | some grants ↦ planned w now dry_run job t h grants
    ])

-- targetSync behind its probe: a target without an id is created first.
unfoldable pub sync_host : World → Time → Flags → Job → Host → Outcome (Option Plan)
unfolding with_principals
sync_host w now f job h =
    let t = record job.target { host_public_key = h.host_key } in
    if is_empty job.target.id && not f.dry_run
    then after (create_target t f.tags job.seeds ∷ []) (elim (w.created t) [
      | none ↦ stopped create_failed none
      | some made ↦ with_principals w now f.dry_run job made h
    ])
    else with_principals w now f.dry_run job job.target h

-- targetSync behind its checks, once its probe has ended.
unfoldable pub go_on : World → Time → Flags → Job → Outcome Host → Outcome (Option Plan)
unfolding sync_host
go_on w now f job read =
    after read.effects
      (elim read.failure [ some e ↦ stopped e none | none ↦ sync_host w now f job read.value ])

-- targetSync behind its checks
unfoldable pub sync_job : World → Time → Flags → Job → Outcome (Option Plan)
unfolding probe go_on
sync_job w now f job =
    go_on w now f job (probe w job.dest job.target.host_public_key job.seeds f.accept_host_key)

-- targetDelete behind its search for the target: the host first, unless it is kept.
unfoldable pub delete : World → Target → Outcome Unit
delete w t =
    after (delete_target t ∷ [])
      (if w.deleted t then after (refresh ∷ []) (done tt) else stopped delete_failed tt)

unfoldable pub remove_job : World → Flags → Remote → Target → Outcome Unit
unfolding delete
remove_job w f dest t =
    if f.keep_host
    then delete w t
    else after (run_on_host dest sh remove_script ∷ [])
        (if (w.on_host dest sh remove_script).1 then delete w t else stopped cleanup_failed tt)

unfoldable pub run_prepared : World → Time → Flags → Prepared → Outcome (Option Plan)
unfolding sync_job
run_prepared w now f (refused e) = stopped e none
run_prepared w now f (ready job) = sync_job w now f job

module _ (split_host_port : Text → Option (Text × Text)) (join_host_port : Text → Text → Text)
    (u : CaseTables) where
  -- targetSync behind connect, which is client.New and SyncOrCache: `s` is the state that these leave.
  unfoldable pub target_sync : World → Time → State → Lookups → Flags → Text → Outcome (Option Plan)
  unfolding run_prepared
  target_sync w now s l f arg =
      run_prepared w now f (prepare split_host_port join_host_port u s l f arg)

  unfoldable pub remove_found :
      World → Flags → Text → Remote → Result (Option Target) → Outcome Unit
  unfolding dest_of remove_job
  remove_found w f host dest (Target.err e) = stopped (bad_target e) tt
  remove_found w f host dest (Target.ok none) = stopped unknown_target tt
  remove_found w f host dest (Target.ok (some t)) =
      remove_job w f (dest_of split_host_port join_host_port u t host dest) t

  unfoldable pub remove_rooted : World → State → Lookups → Flags → Result Text → Outcome Unit
  unfolding find_remote_target remove_found
  remove_rooted w s l f (Target.err e) = stopped (bad_target e) tt
  remove_rooted w s l f (Target.ok host) =
      let dest : Remote = record { host = host; port = f.port } in
      remove_found w f host dest
        (find_remote_target split_host_port s.targets host (resolve dest (l.resolved dest)).host)

  -- targetDelete
  unfoldable pub target_delete : World → State → Lookups → Flags → Text → Outcome Unit
  unfolding root_host remove_rooted
  target_delete w s l f arg = remove_rooted w s l f (root_host arg)
