-- ===== src/Cmd/Sync/Promise.antt =====
-- internal/cmd/target.go: what a dry run leaves alone and when a sync stops at once.
use nk.Base.{
  ◌≡◌, refl, ap, ◌∙◌, inl, inr, ◌⊎◌, Bool, true, false, ◌&&◌, ◌||◌, not, List, [], ◌∷◌, Option,
  some, All, Member, arith, Bool-cases, Option-cases,
}
use nk.Base.Text.{Text, text_eq, is_empty, contains, CaseTables}
use nk.Base.Clock.{Time}
use nk.State.{Target, State}
use nk.Manual.{Host, parse_probe}
use nk.Manual.Script.{probe_command}
use nk.Cmd.Target.{Remote, check_host_key}
use nk.Client.Grant.{Grant}
use nk.Cmd.Sync.{
  Effect, run_on_host, read_principals, World, Failure, probe, read_host, check_host,
  missing_account, Flags, Job, Prepared, refused, ready, Lookups, prepare, key_changed, no_account,
  probed,
}
use nk.Cmd.Sync.Run.{
  go_on, planned, with_principals, sync_host, sync_job, run_prepared, target_sync,
}

-- Effects that change nothing: the probe's command on the host, and reads from Nokku.
abbrev pub IsRead : Effect → Type 0
IsRead (run_on_host d c i) = (c ≡ probe_command) × (i ≡ [])
IsRead (read_principals t) = Unit
IsRead _ = ⊥

module _ (w : World) (now : Time) where
  with_principals-IsRead :
      (dry_run : Bool) (job : Job) (t : Target) (h : Host)
      → dry_run ≡ true
      → All IsRead (with_principals w now dry_run job t h).effects
  unfolding with_principals planned
  with_principals-IsRead false job t h d = cc
  with_principals-IsRead true job t h d = elim (Bool-cases (is_empty t.id)) [
    | inl e ↦ rw e tt
    | inr e ↦ elim (Option-cases (w.principals_of t)) [
      | inl q ↦ rw (e, q) (tt, tt)
      | inr (grants, q) ↦ rw (e, q) (tt, tt)
    ]
  ]

  sync_host-IsRead :
      (f : Flags) (job : Job) (h : Host)
      → f.dry_run ≡ true
      → All IsRead (sync_host w now f job h).effects
  unfolding sync_host
  sync_host-IsRead f job h d =
      let e : (is_empty job.target.id && not f.dry_run) ≡ false = ground (arith, d) in
      rw e (with_principals-IsRead f.dry_run job job.target h d)

  read_host-IsRead :
      (f : Flags) (job : Job) (answer : Text × Bool)
      → f.dry_run ≡ true
      → All IsRead
          (go_on w now f job (
            read_host job.dest job.target.host_public_key job.seeds f.accept_host_key
              answer)).effects
  unfolding read_host go_on
  read_host-IsRead f job (out, false) d = ((refl, refl), tt)
  read_host-IsRead f job (out, true) d =
      let found = parse_probe out in
      elim (Option-cases
        (check_host job.target.host_public_key job.seeds f.accept_host_key found)) [
          | inl e ↦ rw e ((refl, refl), sync_host-IsRead f job found.0 d)
          | inr (x, e) ↦ rw e ((refl, refl), tt)
        ]

  run_prepared-IsRead :
      (f : Flags) (p : Prepared) → f.dry_run ≡ true → All IsRead (run_prepared w now f p).effects
  unfolding run_prepared
  run_prepared-IsRead f (refused e) d = tt
  run_prepared-IsRead f (ready job) d =
      unfold sync_job probe in read_host-IsRead f job (w.on_host job.dest probe_command []) d

module _ (split_host_port : Text → Option (Text × Text)) (join_host_port : Text → Text → Text)
    (u : CaseTables) where
  -- Behind its connection to Nokku a dry run changes nothing: on the host it runs the probe's command
  -- and nothing else, and of Nokku it only reads.
  pub target_sync-IsRead :
      (w : World) (now : Time) (s : State) (l : Lookups) (f : Flags) (arg : Text)
      → f.dry_run ≡ true
      → All IsRead (target_sync split_host_port join_host_port u w now s l f arg).effects
  unfolding target_sync
  target_sync-IsRead w now s l f arg d =
      run_prepared-IsRead w now f (prepare split_host_port join_host_port u s l f arg) d

missing_account-Member :
    (accounts : List Text) (seeds : List Grant) (g : Grant)
    → Member g seeds
    → contains accounts g.account ≡ false
    → (a : Text) × (missing_account accounts seeds ≡ some a)
unfolding missing_account
missing_account-Member accounts [] g m e = elim m [ ]
missing_account-Member accounts (x ∷ xs) g m e = elim (Bool-cases (contains accounts x.account)) [
  | inr t ↦ (x.account, rw t refl)
  | inl t ↦ elim m [
    | inl q ↦ cc (ap (λ (y : Grant). contains accounts y.account) q, t, e)
    | inr n ↦ let (a, q) = missing_account-Member accounts xs g n e in (a, rw t q)
  ]
]

check_host-stops :
    (pinned : Text) (seeds : List Grant) (accept : Bool) (h : Host)
    → ((is_empty pinned || text_eq pinned h.host_key) || accept ≡ false)
      ⊎ ((g : Grant) × Member g seeds × (contains h.accounts g.account ≡ false))
    → (x : Failure) × (check_host pinned seeds accept (h, true) ≡ some x)
unfolding check_host check_host_key
check_host-stops pinned seeds accept h (inl e) =
    elim (Bool-cases (is_empty pinned || text_eq pinned h.host_key)) [
      | inl t ↦ cc (rw t at e)
      | inr t ↦ (key_changed, rw (check_host, check_host_key, t, (rw t at e)) refl)
    ]
check_host-stops pinned seeds accept h (inr (g, m, e)) =
    let (a, q) = missing_account-Member h.accounts seeds g m e in
    elim (Bool-cases (is_empty pinned || text_eq pinned h.host_key)) [
      | inl t ↦ (no_account a, rw (check_host, check_host_key, t, q) refl)
      | inr t ↦ elim (Bool-cases accept) [
        | inl y ↦ (no_account a, rw (check_host, check_host_key, t, y, q) refl)
        | inr y ↦ (key_changed, rw (check_host, check_host_key, t, y) refl)
      ]
    ]

read_host-fails :
    (dest : Remote) (pinned : Text) (seeds : List Grant) (accept : Bool) (answer : Text × Bool)
    (out : Text) (h : Host) (x : Failure)
    → answer ≡ (out, true)
    → parse_probe out ≡ (h, true)
    → check_host pinned seeds accept (h, true) ≡ some x
    → read_host dest pinned seeds accept answer ≡ probed (some x) h dest
unfolding read_host
read_host-fails dest pinned seeds accept answer out h x answered parsed fails = rw answered (
    ap (λ (found : Host × Bool). probed (check_host pinned seeds accept found) found.0 dest) parsed
    ∙ ap (λ (f : Option Failure). probed f h dest) fails)

-- Where the probe of a sync is answered and parsed, and the host shows another key than the pinned
-- one, without --accept-host-key, or lacks an account of a grant, the sync ends in an error, and
-- the probe is all that it did.
pub sync_job-refused :
    (w : World) (now : Time) (f : Flags) (job : Job) (out : Text) (h : Host)
    → w.on_host job.dest probe_command [] ≡ (out, true)
    → parse_probe out ≡ (h, true)
    → ((is_empty job.target.host_public_key || text_eq job.target.host_public_key h.host_key)
          || f.accept_host_key
        ≡ false)
      ⊎ ((g : Grant) × Member g job.seeds × (contains h.accounts g.account ≡ false))
    → ((sync_job w now f job).effects ≡ run_on_host job.dest probe_command [] ∷ [])
      × ((e : Failure) × ((sync_job w now f job).failure ≡ some e))
unfolding sync_job probe
sync_job-refused w now f job out h answered parsed bad =
    let (x, fails) =
      check_host-stops job.target.host_public_key job.seeds f.accept_host_key h bad in
    rw
      (read_host-fails job.dest job.target.host_public_key job.seeds f.accept_host_key
        (w.on_host job.dest probe_command []) out h x answered parsed fails)
      (refl, (x, refl))
