-- ===== src/Cmd/Sync/Order.antt =====
-- internal/cmd/target.go: in which order nk sync and nk rm act on the host and on Nokku.
use nk.Base.{
  ◌≡◌, refl, inl, inr, Bool, true, false, ◌&&◌, not, List, [], ◌∷◌, Option, none, some,
  if◌then◌else◌, Bool-cases, Option-cases,
}
use nk.Base.Text.{Text, text_eq, is_empty, CaseTables}
use nk.Base.Clock.{Time}
use nk.State.{Target, State}
use nk.Manual.{Host, parse_probe}
use nk.Manual.Plan.{Plan}
use nk.Manual.Script.{script, probe_command, remove_script}
use nk.Cmd.Target.{Remote, Result, root_host, find_remote_target, resolve}
use nk.Cmd.Target
use nk.Cmd.Sync.{
  Effect, run_on_host, create_target, read_principals, report_target, delete_target, refresh, World,
  Outcome, probe, read_host, check_host, Flags, Job, Prepared, refused, ready, Lookups, prepare,
  write_failed, cleanup_failed,
}
use nk.Cmd.Sync.Run.{
  sh, stopped, report, apply_plan, planned, with_principals, sync_host, sync_job, go_on,
  run_prepared, remove_found, remove_rooted, delete, remove_job, target_sync, target_delete,
}

module _ (w : World) where
  -- A report of a target to Nokku, or its deletion there, comes only while `changed` holds: where the
  -- last run on the host was a script on the input of a shell, and it succeeded. The creation of a
  -- target may come at any time.
  abbrev pub HostFirst : Bool → List Effect → Type 0
  HostFirst changed [] = Unit
  HostFirst changed (run_on_host d c i ∷ es) = HostFirst (text_eq c sh && (w.on_host d c i).1) es
  HostFirst changed (create_target t tags gs ∷ es) = HostFirst changed es
  HostFirst changed (read_principals t ∷ es) = HostFirst changed es
  HostFirst changed (report_target t accounts key ∷ es) = (changed ≡ true) × HostFirst changed es
  HostFirst changed (delete_target t ∷ es) = (changed ≡ true) × HostFirst changed es
  HostFirst changed (refresh ∷ es) = HostFirst changed es

  -- Behind a script on the host: on success the one, on failure the other.
  branch :
      {A : Type 0} (ok : Bool) (a z : Outcome A)
      → HostFirst true a.effects
      → HostFirst false z.effects
      → HostFirst (text_eq sh sh && ok) (if ok then a else z).effects
  unfolding text_eq
  branch true a z ha hz = ha
  branch false a z ha hz = hz

  report-HostFirst :
      (t : Target) (h : Host) (plan : Plan) → HostFirst true (report w t h plan).effects
  unfolding report
  report-HostFirst t h plan = elim (Bool-cases (w.reported t h.accounts h.host_key)) [
    | inl e ↦ rw e (refl, tt)
    | inr e ↦ rw e (refl, tt)
  ]

  apply_plan-HostFirst :
      (b : Bool) (t : Target) (dest : Remote) (h : Host) (plan : Plan)
      → HostFirst b (apply_plan w t dest h plan).effects
  unfolding apply_plan
  apply_plan-HostFirst b t dest h plan =
      branch {A = Option Plan} (w.on_host dest sh (script plan)).1 (report w t h plan)
        (stopped write_failed (some plan)) (report-HostFirst t h plan) tt

  planned-HostFirst :
      (b : Bool) (now : Time) (dry_run : Bool) (job : Job) (t : Target) (h : Host)
      (grants : List (Text × List Text))
      → HostFirst b (planned w now dry_run job t h grants).effects
  unfolding planned
  planned-HostFirst b now true job t h grants = tt
  planned-HostFirst b now false job t h grants = apply_plan-HostFirst b t job.dest h _

  with_principals-HostFirst :
      (b : Bool) (now : Time) (dry_run : Bool) (job : Job) (t : Target) (h : Host)
      → HostFirst b (with_principals w now dry_run job t h).effects
  unfolding with_principals
  with_principals-HostFirst b now dry_run job t h = elim (Bool-cases (is_empty t.id)) [
    | inl e ↦ rw e (planned-HostFirst b now dry_run job t h [])
    | inr e ↦ elim (Option-cases (w.principals_of t)) [
      | inl q ↦ rw (e, q) tt
      | inr (grants, q) ↦ rw (e, q) (planned-HostFirst b now dry_run job t h grants)
    ]
  ]

  sync_host-HostFirst :
      (b : Bool) (now : Time) (f : Flags) (job : Job) (h : Host)
      → HostFirst b (sync_host w now f job h).effects
  unfolding sync_host
  sync_host-HostFirst b now f job h =
      let t : Target = record job.target { host_public_key = h.host_key } in
      elim (Bool-cases (is_empty job.target.id && not f.dry_run)) [
        | inr e ↦ rw e (with_principals-HostFirst b now f.dry_run job job.target h)
        | inl e ↦ elim (Option-cases (w.created t)) [
          | inl q ↦ rw (e, q) tt
          | inr (made, q) ↦ rw (e, q) (with_principals-HostFirst b now f.dry_run job made h)
        ]
      ]

  delete-HostFirst : (t : Target) → HostFirst true (delete w t).effects
  unfolding delete
  delete-HostFirst t = elim (Bool-cases (w.deleted t)) [
    | inl e ↦ rw e (refl, tt)
    | inr e ↦ rw e (refl, tt)
  ]

  remove_job-HostFirst :
      (f : Flags) (dest : Remote) (t : Target)
      → HostFirst f.keep_host (remove_job w f dest t).effects
  unfolding remove_job
  remove_job-HostFirst f dest t = elim (Bool-cases f.keep_host) [
    | inl e ↦ rw e (delete-HostFirst t)
    | inr e ↦ rw e (
        branch {A = Unit} (w.on_host dest sh remove_script).1 (delete w t)
          (stopped cleanup_failed tt) (delete-HostFirst t) tt)
  ]

  read_host-HostFirst :
      (now : Time) (f : Flags) (job : Job) (b : Bool) (answer : Text × Bool)
      → HostFirst b
          (go_on w now f job (
            read_host job.dest job.target.host_public_key job.seeds f.accept_host_key
              answer)).effects
  unfolding read_host go_on
  read_host-HostFirst now f job b (out, false) = tt
  read_host-HostFirst now f job b (out, true) =
      let found = parse_probe out in
      elim (Option-cases
        (check_host job.target.host_public_key job.seeds f.accept_host_key found)) [
          | inl e ↦ rw e (sync_host-HostFirst _ now f job found.0)
          | inr (x, e) ↦ rw e tt
        ]

  run_prepared-HostFirst :
      (now : Time) (f : Flags) (p : Prepared) → HostFirst false (run_prepared w now f p).effects
  unfolding run_prepared
  run_prepared-HostFirst now f (refused e) = tt
  run_prepared-HostFirst now f (ready job) =
      unfold sync_job probe in
      read_host-HostFirst now f job false (w.on_host job.dest probe_command [])

module _ (split_host_port : Text → Option (Text × Text)) (join_host_port : Text → Text → Text)
    (u : CaseTables) where
  -- Behind its connection to Nokku nk sync reports a target (its accounts and host key as synced)
  -- only where its last run on the host was a script on a shell's input, and that run succeeded.
  -- The creation of a new target, with its host key and grants, is no report, and comes before.
  pub target_sync-HostFirst :
      (w : World) (now : Time) (s : State) (l : Lookups) (f : Flags) (arg : Text)
      → HostFirst w false (target_sync split_host_port join_host_port u w now s l f arg).effects
  unfolding target_sync
  target_sync-HostFirst w now s l f arg =
      run_prepared-HostFirst w now f (prepare split_host_port join_host_port u s l f arg)

  remove_found-HostFirst :
      (w : World) (f : Flags) (host : Text) (dest : Remote) (r : Result (Option Target))
      → HostFirst w f.keep_host
          (remove_found split_host_port join_host_port u w f host dest r).effects
  unfolding remove_found
  remove_found-HostFirst w f host dest (Target.err e) = tt
  remove_found-HostFirst w f host dest (Target.ok none) = tt
  remove_found-HostFirst w f host dest (Target.ok (some t)) = remove_job-HostFirst w f _ t

  -- Behind its connection to Nokku nk rm deletes a target there only where its last run on the host
  -- was a script on a shell's input that succeeded, unless it was told to keep the host.
  pub target_delete-HostFirst :
      (w : World) (s : State) (l : Lookups) (f : Flags) (arg : Text)
      → HostFirst w f.keep_host (target_delete split_host_port join_host_port u w s l f arg).effects
  unfolding target_delete
  target_delete-HostFirst w s l f arg = of_root (root_host arg)
    where
      of_root :
          (r : Result Text)
          → HostFirst w f.keep_host
              (remove_rooted split_host_port join_host_port u w s l f r).effects
      of_root (Target.err e) = unfold remove_rooted in tt
      of_root (Target.ok host) = unfold remove_rooted in remove_found-HostFirst w f host _ _
