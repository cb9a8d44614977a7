-- ===== src/Doctor/Codes.antt =====
-- internal/doctor/doctor.go and internal/doctor/render.go: the exit code, and the summary beside it.
use nk.Base.{
  ℕ, ◌≡◌, refl, sym, ◌∙◌, Bool, true, false, ◌||◌, List, [], ◌∷◌, any, ltb, if◌then◌else◌, arith,
}
use nk.Doctor.{
  Status, status_ok, status_warn, status_fail, status_info, Check, Report, is_fail, is_warn,
  on_status, exit_from, exit_code, Counts, count_status, counts, Verdict, run_fix, see_warnings,
  all_good, verdict,
}

-- What the statuses alone say of the exit code.
abbrev pub code_of : Bool → Bool → ℕ → ℕ
code_of fail warn code = if fail then 2 else if warn then 1 else code

on_status-code_of :
    (s : Status) (f w : Bool) (code : ℕ) (rest : ℕ → ℕ)
    → ((k : ℕ) → rest k ≡ code_of f w k)
    → on_status s code rest
      ≡ code_of
          ((elim s [ status_fail ↦ true | _ ↦ false ]) || f)
          ((elim s [ status_warn ↦ true | _ ↦ false ]) || w)
          code
on_status-code_of status_fail f w code rest h = refl
on_status-code_of status_ok f w code rest h = h code
on_status-code_of status_info f w code rest h = h code
on_status-code_of status_warn true w code rest h = h 1
on_status-code_of status_warn false true code rest h = h 1
on_status-code_of status_warn false false code rest h = h 1

exit_from-code_of :
    (cs : List Check) (code : ℕ)
    → exit_from cs code ≡ code_of (any is_fail cs) (any is_warn cs) code
unfolding exit_from
exit_from-code_of [] code = refl
exit_from-code_of (c ∷ cs) code =
    on_status-code_of c.status (any is_fail cs) (any is_warn cs) code (exit_from cs)
      (exit_from-code_of cs)

count_status-fail :
    (s : Status) (c : Counts) (b : Bool)
    → ltb 0 c.fail ≡ b
    → ltb 0 (count_status s c).fail ≡ (elim s [ status_fail ↦ true | _ ↦ false ]) || b
count_status-fail status_fail c b h = ground arith
count_status-fail status_ok c b h = h
count_status-fail status_info c b h = h
count_status-fail status_warn c b h = h

count_status-warn :
    (s : Status) (c : Counts) (b : Bool)
    → ltb 0 c.warn ≡ b
    → ltb 0 (count_status s c).warn ≡ (elim s [ status_warn ↦ true | _ ↦ false ]) || b
count_status-warn status_warn c b h = ground arith
count_status-warn status_ok c b h = h
count_status-warn status_info c b h = h
count_status-warn status_fail c b h = h

counts-fail : (cs : List Check) → ltb 0 (counts cs).fail ≡ any is_fail cs
unfolding counts
counts-fail [] = refl
counts-fail (c ∷ cs) = count_status-fail c.status (counts cs) (any is_fail cs) (counts-fail cs)

counts-warn : (cs : List Check) → ltb 0 (counts cs).warn ≡ any is_warn cs
unfolding counts
counts-warn [] = refl
counts-warn (c ∷ cs) = count_status-warn c.status (counts cs) (any is_warn cs) (counts-warn cs)

abbrev pub verdict_code : Verdict → ℕ
verdict_code run_fix = 2
verdict_code see_warnings = 1
verdict_code all_good = 0

verdict-code_of :
    (c : Counts) (f w : Bool)
    → ltb 0 c.fail ≡ f
    → ltb 0 c.warn ≡ w
    → verdict_code (verdict c) ≡ code_of f w 0
unfolding verdict
verdict-code_of c true w h k = rw h refl
verdict-code_of c false true h k = rw (h, k) refl
verdict-code_of c false false h k = rw (h, k) refl

-- The exit code is 2 where some check failed, 1 where none failed and some check warns, and 0
-- otherwise, in whatever order the checks stand; and the summary's ending is the one of that code.
pub exit_code_lem :
    (r : Report)
    → (exit_code r ≡ code_of (any is_fail r.checks) (any is_warn r.checks) 0)
      × (verdict_code (verdict (counts r.checks)) ≡ exit_code r)
unfolding exit_code
exit_code_lem r =
    let e = exit_from-code_of r.checks 0 in
    (e, verdict-code_of (counts r.checks) _ _ (counts-fail r.checks) (counts-warn r.checks) ∙ sym e)
