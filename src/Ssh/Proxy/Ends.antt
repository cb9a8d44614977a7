-- ===== src/Ssh/Proxy/Ends.antt =====
-- internal/ssh/proxy.go: the loop of Proxy ends.
use nk.Base.{
  ℕ, zero, suc, ◌+◌, ◌-◌, ◌≡◌, ◌≤◌, ◌<◌, refl, inl, inr, ◌⊎◌, Bool, true, false, ◌&&◌, ◌||◌, not,
  List, [], ◌∷◌, ◌++◌, map, length, ◌==◌, if◌then◌else◌, arith, Bool-cases,
}
use nk.Base.Text.{Text}
use nk.State.{Target, manual}
use nk.Ssh.Proxy.{
  Dial, direct, relay, Timer, off, head_start, at_once, is_off, Racing, Event, fired, failed,
  connected, Status, refused, racing, piped, unreachable, stuck, loop, receive, run, start,
}

-- What the race may still receive: a result for every pending dial, and the timer and the result of
-- the relay behind it.
abbrev of_timer : Timer → ℕ
of_timer off = 0
of_timer _ = 2

module _ (Conn : Type 0) (Failed : Type 0) where
  -- A race that goes on has something to come, and at most `n` events.
  abbrev Fits : ℕ → Status Conn Failed → Type 0
  Fits n (racing r) =
      (1 ≤ r.pending + of_timer r.relay_start) × (r.pending + of_timer r.relay_start ≤ n)
  Fits n _ = Unit

  loop-Fits :
      (n p : ℕ) (t : Timer) (es : List Failed) (ds : List Dial)
      → p + of_timer t ≤ n
      → Fits n (loop Conn Failed (record { pending = p; relay_start = t; errs = es; dials = ds }))
  unfolding loop
  loop-Fits n zero off es ds h = tt
  loop-Fits n (suc p) off es ds h =
      let e : (suc p == 0) ≡ false = ground arith in rw e (omega arith, h)
  loop-Fits n zero head_start es ds h = (omega arith, h)
  loop-Fits n (suc p) head_start es ds h =
      let e : (suc p == 0) ≡ false = ground arith in rw e (omega arith, h)
  loop-Fits n zero at_once es ds h = (omega arith, h)
  loop-Fits n (suc p) at_once es ds h =
      let e : (suc p == 0) ≡ false = ground arith in rw e (omega arith, h)

  hurried-of_timer :
      (b : Bool) (t : Timer) → of_timer (if b && not (is_off t) then at_once else t) ≡ of_timer t
  hurried-of_timer true off = refl
  hurried-of_timer true head_start = refl
  hurried-of_timer true at_once = refl
  hurried-of_timer false t = refl

  receive-Fits :
      (ev : Event Conn Failed) (r : Racing Conn Failed) (n p : ℕ) (t : Timer)
      → r.pending ≡ p
      → r.relay_start ≡ t
      → p + of_timer t ≤ suc n
      → Fits n (receive Conn Failed ev r)
  unfolding receive
  receive-Fits fired r n p off e q h = rw q tt
  receive-Fits fired r n p head_start e q h =
      rw q (loop-Fits n (suc r.pending) off r.errs (r.dials ++ relay ∷ []) (omega (arith, e)))
  receive-Fits fired r n p at_once e q h =
      rw q (loop-Fits n (suc r.pending) off r.errs (r.dials ++ relay ∷ []) (omega (arith, e)))
  receive-Fits (failed x) r n zero t e q h = rw e tt
  receive-Fits (failed x) r n (suc p) t e q h =
      rw (e, q)
        (loop-Fits n p (if p == 0 && not (is_off t) then at_once else t) (r.errs ++ x ∷ []) r.dials
          (omega (arith, h, hurried-of_timer (p == 0) t)))
  receive-Fits (connected c) r n zero t e q h = rw e tt
  receive-Fits (connected c) r n (suc p) t e q h = rw e tt

  run-Fits :
      (es : List (Event Conn Failed)) (s : Status Conn Failed) (n m : ℕ)
      → m ≡ length es + n
      → Fits m s
      → Fits n (run Conn Failed es s)
  unfolding run
  run-Fits [] s n m q h = let q' : m ≡ n = omega (arith, q) in rw q' at h
  run-Fits (e ∷ es) (racing r) n m q (some_left, h) =
      run-Fits es (receive Conn Failed e r) n (length es + n) refl
        (receive-Fits e r (length es + n) r.pending r.relay_start refl refl (omega (arith, h, q)))
  run-Fits (e ∷ es) (refused x) n m q h = tt
  run-Fits (e ∷ es) (piped c k r) n m q h = tt
  run-Fits (e ∷ es) (unreachable r) n m q h = tt
  run-Fits (e ∷ es) stuck n m q h = tt

  abbrev pub is_stuck : Status Conn Failed → Bool
  is_stuck stuck = true
  is_stuck _ = false

  abbrev pub CanReceive : Racing Conn Failed → Type 0
  CanReceive r =
      (is_stuck (receive Conn Failed fired r) ≡ false)
      ⊎ ((e : Failed) → is_stuck (receive Conn Failed (failed e) r) ≡ false)

  loop-is_stuck : (r : Racing Conn Failed) → is_stuck (loop Conn Failed r) ≡ false
  unfolding loop
  loop-is_stuck r = elim (Bool-cases (not (r.pending == 0) || not (is_off r.relay_start))) [
    | inl e ↦ rw e refl
    | inr e ↦ rw e refl
  ]

  Fits-CanReceive :
      (r : Racing Conn Failed) (p : ℕ) (t : Timer)
      → r.pending ≡ p
      → r.relay_start ≡ t
      → 1 ≤ p + of_timer t
      → CanReceive r
  unfolding receive
  Fits-CanReceive r zero off e q h = absurd (omega (arith, h))
  Fits-CanReceive r (suc p) t e q h = inr (λ x. rw e (
      loop-is_stuck (record {
        pending = p;
        relay_start = if p == 0 && not (is_off r.relay_start) then at_once else r.relay_start;
        errs = r.errs ++ x ∷ [];
        dials = r.dials;
      })))
  Fits-CanReceive r zero head_start e q h = inl (
      rw q (
        loop-is_stuck (record {
          pending = suc r.pending;
          relay_start = off;
          errs = r.errs;
          dials = r.dials ++ relay ∷ [];
        })))
  Fits-CanReceive r zero at_once e q h = inl (
      rw q (
        loop-is_stuck (record {
          pending = suc r.pending;
          relay_start = off;
          errs = r.errs;
          dials = r.dials ++ relay ∷ [];
        })))

  -- The race of a target goes on behind `es` only if they are fewer than its endpoints and two
  -- more, and something can still arrive.
  abbrev pub IsBounded : Target → List (Event Conn Failed) → Status Conn Failed → Type 0
  IsBounded t es (racing r) = (length es < length t.endpoints + 2) × CanReceive r
  IsBounded t es _ = Unit

  length-dials :
      (addr : Text → Text) (eps : List Text)
      → length (map (λ ep. direct (addr ep)) eps) ≡ length eps
  length-dials addr [] = refl
  length-dials addr (ep ∷ eps) = omega (arith, length-dials addr eps)

  Fits-IsBounded :
      (t : Target) (es : List (Event Conn Failed)) (s : Status Conn Failed)
      → Fits ((length t.endpoints + 2) - length es) s
      → IsBounded t es s
  Fits-IsBounded t es (racing r) (some_left, h) =
      (omega (arith, some_left, h), Fits-CanReceive r r.pending r.relay_start refl refl some_left)
  Fits-IsBounded t es (refused x) h = tt
  Fits-IsBounded t es (piped c n r) h = tt
  Fits-IsBounded t es (unreachable r) h = tt
  Fits-IsBounded t es stuck h = tt

  start-Fits :
      (addr : Text → Text) (t : Target) (force_relay : Bool) (n : ℕ)
      → length t.endpoints + 2 ≤ n
      → Fits n (start Conn Failed addr t force_relay)
  unfolding start
  start-Fits addr t force_relay n h = elim (Bool-cases (force_relay && manual t)) [
    | inl e ↦ rw (start, e) tt
    | inr e ↦ elim (Bool-cases (manual t && length t.endpoints == 0)) [
      | inl q ↦ rw (start, e, q) tt
      | inr q ↦ rw (start, e, q) (loop-Fits n _ _ [] _ (fits force_relay (manual t)))
    ]
  ]
    where
      fits :
          (force m : Bool)
          → let dials = if force then [] else map (λ ep. direct (addr ep)) t.endpoints in
            length dials
              + of_timer (if m then off else if length dials == 0 then at_once else head_start)
            ≤ n
      fits true true = omega (arith, h)
      fits true false = omega (arith, h)
      fits false true = omega (arith, h, length-dials addr t.endpoints)
      fits false false =
          elim (Bool-cases (length (map (λ ep. direct (addr ep)) t.endpoints) == 0)) [
            | inl e ↦ rw e (omega (arith, h, length-dials addr t.endpoints))
            | inr e ↦ rw e (omega (arith, h, length-dials addr t.endpoints))
          ]

  -- The loop of Proxy ends: behind as many events as the target has endpoints, and two more, no
  -- race goes on, and while one does there is something that it can receive.
  pub run-start-IsBounded :
      (addr : Text → Text) (t : Target) (force_relay : Bool) (es : List (Event Conn Failed))
      → IsBounded t es (run Conn Failed es (start Conn Failed addr t force_relay))
  run-start-IsBounded addr t force_relay es =
      Fits-IsBounded t es (run Conn Failed es (start Conn Failed addr t force_relay)) (
        run-Fits es (start Conn Failed addr t force_relay) _
          (length es + ((length t.endpoints + 2) - length es)) refl
          (start-Fits addr t force_relay _ (omega arith)))
