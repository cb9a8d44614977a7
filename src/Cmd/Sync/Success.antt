-- ===== src/Cmd/Sync/Success.antt =====
-- internal/cmd/target.go: what the success of a sync means.
use nk.Base.{
  ◌≡◌, refl, arith, ◌⊎◌, inl, inr, Bool, true, false, ◌&&◌, not, List, [], ◌∷◌, Option, none, some,
  Member, Bool-cases, Option-cases, Member-append_right,
}
use nk.Base.Text.{Text, is_empty, join}
use nk.Base.Clock.{Time}
use nk.State.{Target, trusted_keys}
use nk.Manual.{Host, parse_probe}
use nk.Client.Grant.{Grant}
use nk.Manual.Plan.{Plan, new_plan}
use nk.Manual.Script.{script, probe_command}
use nk.Cmd.Target.{Remote}
use nk.Cmd.Sync.{
  Effect, run_on_host, create_target, read_principals, report_target, World, Outcome, probe,
  read_host, Flags, Job,
}
use nk.Cmd.Sync.Run.{
  sh, after, go_on, report, apply_plan, planned, with_principals, sync_host, sync_job,
}

has_id : (b dry_run : Bool) → dry_run ≡ false → (b && not dry_run) ≡ false → b ≡ false
has_id b dry_run d q = ground arith

no_id : (b dry_run : Bool) → (b && not dry_run) ≡ true → b ≡ true
no_id b dry_run q = ground arith

-- A probe without an error has what the host printed.
read_host-probed :
    (dest : Remote) (pinned : Text) (seeds : List Grant) (accept : Bool) (answer : Text × Bool)
    → (read_host dest pinned seeds accept answer).failure ≡ none
    → (read_host dest pinned seeds accept answer).value ≡ (parse_probe answer.0).0
unfolding read_host
read_host-probed dest pinned seeds accept (out, true) e = refl
read_host-probed dest pinned seeds accept (out, false) e = cc

module _ (w : World) where
  -- That plan was written to that server, Nokku was told what the probe had read, and both succeeded.
  abbrev pub Applied : Target → Remote → Host → Plan → Outcome (Option Plan) → Type 0
  Applied t dest h plan o =
      (o.value ≡ some plan)
      × ((w.on_host dest sh (script plan)).1 ≡ true)
      × (w.reported t h.accounts h.host_key ≡ true)
      × Member (run_on_host dest sh (script plan)) o.effects
      × Member (report_target t h.accounts h.host_key) o.effects

  after-Applied :
      (t : Target) (dest : Remote) (h : Host) (plan : Plan) (es : List Effect)
      (o : Outcome (Option Plan))
      → Applied t dest h plan o
      → Applied t dest h plan (after es o)
  after-Applied t dest h plan es o (v, a, b, m, n) =
      (v, a, b, Member-append_right _ es o.effects m, Member-append_right _ es o.effects n)

  apply_plan-Applied :
      (t : Target) (dest : Remote) (h : Host) (plan : Plan)
      → (apply_plan w t dest h plan).failure ≡ none
      → Applied t dest h plan (apply_plan w t dest h plan)
  unfolding apply_plan report
  apply_plan-Applied t dest h plan e = elim (Bool-cases (w.on_host dest sh (script plan)).1) [
    | inr q ↦ cc (rw q at e)
    | inl q ↦ elim (Bool-cases (w.reported t h.accounts h.host_key)) [
      | inr r ↦ cc (rw (q, r) at e)
      | inl r ↦ rw (q, r) (refl, refl, refl, inl refl, inr (inl refl))
    ]
  ]

  -- Where the grants of a plan come from: only a target with an id has any.
  abbrev pub GrantsOf : Target → List (Text × List Text) → Type 0
  GrantsOf t grants = ((is_empty t.id ≡ true) × (grants ≡ [])) ⊎ (w.principals_of t ≡ some grants)

  -- The target of a sync: the one that was found, or the one that Nokku has made of it and the key
  -- that the probe has read.
  abbrev pub TargetOf : Target → Host → Target → Type 0
  TargetOf found h t =
      ((is_empty found.id ≡ false) × (t ≡ found))
      ⊎ ((is_empty found.id ≡ true)
          × (w.created (record found { host_public_key = h.host_key }) ≡ some t))

  -- What the host printed for the probe.
  abbrev pub probed_host : Remote → Host
  probed_host dest = (parse_probe (w.on_host dest probe_command []).0).0

module _ (w : World) (now : Time) where
  -- The plan of those grants, for the trusted keys of the job's CA, was written and reported.
  abbrev pub AppliedTo : Job → Target → Host → Outcome (Option Plan) → Type 0
  AppliedTo job t h o =
      (grants : List (Text × List Text)) × GrantsOf w t grants
      × Applied w t job.dest h (new_plan (join b'\n' (trusted_keys now job.ca)) grants h) o

  abbrev pub IsSynced : Job → Outcome (Option Plan) → Type 0
  IsSynced job o =
      (t : Target) × TargetOf w job.target (probed_host w job.dest) t
      × AppliedTo job t (probed_host w job.dest) o

  planned-Applied :
      (dry_run : Bool) (job : Job) (t : Target) (h : Host) (grants : List (Text × List Text))
      → dry_run ≡ false
      → (planned w now dry_run job t h grants).failure ≡ none
      → Applied w t job.dest h
          (new_plan (join b'\n' (trusted_keys now job.ca)) grants h)
          (planned w now dry_run job t h grants)
  unfolding planned
  planned-Applied true job t h grants d e = cc
  planned-Applied false job t h grants d e = apply_plan-Applied w t job.dest h _ e

  with_principals-AppliedTo :
      (dry_run : Bool) (job : Job) (t : Target) (h : Host)
      → dry_run ≡ false
      → (with_principals w now dry_run job t h).failure ≡ none
      → AppliedTo job t h (with_principals w now dry_run job t h)
  unfolding with_principals
  with_principals-AppliedTo dry_run job t h d e = elim (Bool-cases (is_empty t.id)) [
    | inl q ↦ rw q ([], inl (refl, refl), planned-Applied dry_run job t h [] d (rw q at e))
    | inr q ↦ elim (Option-cases (w.principals_of t)) [
      | inl r ↦ cc (rw (q, r) at e)
      | inr (grants, r) ↦
          rw (q, r)
            (
              grants,
              inr refl,
              after-Applied w t job.dest h _ (read_principals t ∷ [])
                  (planned w now dry_run job t h grants)
                  (planned-Applied dry_run job t h grants d (rw (q, r) at e)),
            )
    ]
  ]

  after-AppliedTo :
      (job : Job) (t : Target) (h : Host) (es : List Effect) (o : Outcome (Option Plan))
      → AppliedTo job t h o
      → AppliedTo job t h (after es o)
  after-AppliedTo job t h es o (grants, g, a) = (grants, g, after-Applied w t job.dest h _ es o a)

  sync_host-AppliedTo :
      (f : Flags) (job : Job) (h : Host)
      → f.dry_run ≡ false
      → (sync_host w now f job h).failure ≡ none
      → (t : Target) × TargetOf w job.target h t × AppliedTo job t h (sync_host w now f job h)
  unfolding sync_host
  sync_host-AppliedTo f job h d e =
      let t : Target = record job.target { host_public_key = h.host_key } in
      elim (Bool-cases (is_empty job.target.id && not f.dry_run)) [
        | inr q ↦ rw q (
          job.target,
          inl (has_id (is_empty job.target.id) f.dry_run d q, refl),
          with_principals-AppliedTo f.dry_run job job.target h d (rw q at e),
        )
        | inl q ↦ elim (Option-cases (w.created t)) [
          | inl r ↦ cc (rw (q, r) at e)
          | inr (made, r) ↦
              rw (q, r)
                (
                  made,
                  inr (no_id (is_empty job.target.id) f.dry_run q, refl),
                  after-AppliedTo job made h (create_target t f.tags job.seeds ∷ [])
                      (with_principals w now f.dry_run job made h)
                      (with_principals-AppliedTo f.dry_run job made h d (rw (q, r) at e)),
                )
        ]
      ]

  go_on-AppliedTo :
      (f : Flags) (job : Job) (read : Outcome Host)
      → f.dry_run ≡ false
      → (go_on w now f job read).failure ≡ none
      → (read.failure ≡ none)
        × ((t : Target) × TargetOf w job.target read.value t
            × AppliedTo job t read.value (go_on w now f job read))
  unfolding go_on
  go_on-AppliedTo f job read d e = elim (Option-cases read.failure) [
    | inr (x, q) ↦ cc (rw q at e)
    | inl q ↦
        let (t, of, a) = sync_host-AppliedTo f job read.value d (rw q at e) in
        rw q (
          refl,
          (
            t,
            of,
            after-AppliedTo job t read.value read.effects (sync_host w now f job read.value) a,
          ),
        )
  ]

at_host :
    (w : World) (now : Time) (job : Job) (o : Outcome (Option Plan)) (h h' : Host)
    → h ≡ h'
    → (t : Target) × TargetOf w job.target h t × AppliedTo w now job t h o
    → (t : Target) × TargetOf w job.target h' t × AppliedTo w now job t h' o
at_host w now job o h h' e x = rw e at x

-- A sync that is no dry run and ends without an error has written a plan to its server and reported
-- it to Nokku, and both succeeded: the value is that plan, made of the trusted keys of the job's CA,
-- of what the host printed for the probe, and of the principals that Nokku has for the target (none
-- for one without an id); reported are the accounts and the host key of that probe; and the target
-- is the one that was found or, where that has no id, the one that Nokku has created for it.
pub sync_job-IsSynced :
    (w : World) (now : Time) (f : Flags) (job : Job)
    → f.dry_run ≡ false
    → (sync_job w now f job).failure ≡ none
    → IsSynced w now job (sync_job w now f job)
unfolding sync_job probe
sync_job-IsSynced w now f job d e =
    let read = probe w job.dest job.target.host_public_key job.seeds f.accept_host_key in
    let (ok, found) = go_on-AppliedTo w now f job read d e in
    let same =
      read_host-probed job.dest job.target.host_public_key job.seeds f.accept_host_key
        (w.on_host job.dest probe_command []) ok in
    at_host w now job (sync_job w now f job) read.value (probed_host w job.dest) same found
