-- ===== src/Ssh/Proxy/Race.antt =====
-- internal/ssh/proxy.go: how the race of Proxy ends, whatever arrives in whatever order.
use nk.Base.{
  ℕ, zero, suc, ◌+◌, ◌≡◌, refl, sym, ap, ◌∙◌, inl, inr, Bool, true, false, ◌&&◌, not, List, [], ◌∷◌,
  ◌++◌, append-nil, map, length, length-append, ◌==◌, if◌then◌else◌, arith, Bool-cases,
}
use nk.Base.Text.{Text}
use nk.State.{Target, manual}
use nk.Ssh.Proxy.{
  Dial, direct, relay, Timer, off, head_start, at_once, is_off, Racing, Event, fired, failed,
  connected, Status, refused, racing, piped, unreachable, stuck, loop, receive, run, start,
}

-- Every way to the target: the endpoints unless the relay is forced, and the relay of a daemon.
abbrev pub all_dials : (Text → Text) → Target → Bool → List Dial
all_dials addr t force_relay =
    (if force_relay then [] else map (λ ep. direct (addr ep)) t.endpoints)
    ++ (if manual t then [] else relay ∷ [])

module _ (Conn : Type 0) (Failed : Type 0) (ways : List Dial) where
  -- The ways that are left once those of the race were dialed.
  abbrev pub left : Timer → List Dial
  left off = []
  left _ = relay ∷ []

  abbrev pub IsSound : Racing Conn Failed → Type 0
  IsSound r = (length r.dials ≡ length r.errs + r.pending) × (r.dials ++ left r.relay_start ≡ ways)

  abbrev pub IsSettled : Status Conn Failed → Type 0
  IsSettled (refused x) = Unit
  IsSettled (racing r) = IsSound r
  IsSettled (piped c n r) =
      (length r.dials ≡ suc (length r.errs + n)) × (r.dials ++ left r.relay_start ≡ ways)
  IsSettled (unreachable r) = (r.dials ≡ ways) × (length r.errs ≡ length ways)
  IsSettled stuck = Unit

  loop-IsSettled :
      (p : ℕ) (t : Timer) (es : List Failed) (ds : List Dial)
      → length ds ≡ length es + p
      → ds ++ left t ≡ ways
      → IsSettled
          (loop Conn Failed (record { pending = p; relay_start = t; errs = es; dials = ds }))
  unfolding loop
  loop-IsSettled zero off es ds c q =
      let all = sym (append-nil ds) ∙ q in (all, omega (arith, c, ap length all))
  loop-IsSettled (suc n) off es ds c q = let e : (suc n == 0) ≡ false = ground arith in rw e (c, q)
  loop-IsSettled zero head_start es ds c q = (c, q)
  loop-IsSettled (suc n) head_start es ds c q =
      let e : (suc n == 0) ≡ false = ground arith in rw e (c, q)
  loop-IsSettled zero at_once es ds c q = (c, q)
  loop-IsSettled (suc n) at_once es ds c q =
      let e : (suc n == 0) ≡ false = ground arith in rw e (c, q)

  -- The timer after a failure is on exactly if it was.
  hurried : (b : Bool) (t : Timer) → left (if b && not (is_off t) then at_once else t) ≡ left t
  hurried true off = refl
  hurried true head_start = refl
  hurried true at_once = refl
  hurried false t = refl

  fired-IsSettled :
      (r : Racing Conn Failed) (t : Timer)
      → r.relay_start ≡ t
      → IsSound r
      → IsSettled (receive Conn Failed fired r)
  unfolding receive
  fired-IsSettled r off e (c, q) = rw e tt
  fired-IsSettled r head_start e (c, q) = rw e (
      loop-IsSettled (suc r.pending) off r.errs (r.dials ++ relay ∷ [])
        (omega (arith, c, length-append r.dials (relay ∷ []))) (append-nil _ ∙ (rw e at q)))
  fired-IsSettled r at_once e (c, q) = rw e (
      loop-IsSettled (suc r.pending) off r.errs (r.dials ++ relay ∷ [])
        (omega (arith, c, length-append r.dials (relay ∷ []))) (append-nil _ ∙ (rw e at q)))

  result-IsSettled :
      (p : ℕ) (r : Racing Conn Failed)
      → r.pending ≡ p
      → IsSound r
      → ((e : Failed) → IsSettled (receive Conn Failed (failed e) r))
        × ((c : Conn) → IsSettled (receive Conn Failed (connected c) r))
  unfolding receive
  result-IsSettled zero r h (c, q) = ((λ e. rw h tt), (λ k. rw h tt))
  result-IsSettled (suc n) r h (c, q) = (
    λ e. rw h (
        loop-IsSettled n (if n == 0 && not (is_off r.relay_start) then at_once else r.relay_start)
          (r.errs ++ e ∷ []) r.dials (omega (arith, c, h, length-append r.errs (e ∷ [])))
          (ap (λ (l : List Dial). r.dials ++ l) (hurried (n == 0) r.relay_start) ∙ q)),
    λ k. rw h (omega (arith, c, h), q),
  )

  run-IsSettled :
      (es : List (Event Conn Failed)) (s : Status Conn Failed)
      → IsSettled s
      → IsSettled (run Conn Failed es s)
  unfolding run
  run-IsSettled [] s h = h
  run-IsSettled (fired ∷ es) (racing r) h =
      run-IsSettled es (receive Conn Failed fired r) (fired-IsSettled r r.relay_start refl h)
  run-IsSettled (failed e ∷ es) (racing r) h =
      run-IsSettled es (receive Conn Failed (failed e) r)
        ((result-IsSettled r.pending r refl h).0 e)
  run-IsSettled (connected c ∷ es) (racing r) h =
      run-IsSettled es (receive Conn Failed (connected c) r)
        ((result-IsSettled r.pending r refl h).1 c)
  run-IsSettled (e ∷ es) (refused x) h = h
  run-IsSettled (e ∷ es) (piped c n r) h = h
  run-IsSettled (e ∷ es) (unreachable r) h = h
  run-IsSettled (e ∷ es) stuck h = h

module _ (Conn : Type 0) (Failed : Type 0) where
  begun-IsSettled :
      (b : Bool) (ds : List Dial)
      → IsSettled Conn Failed (ds ++ (if b then [] else relay ∷ [])) (
          loop Conn Failed (record {
            pending = length ds;
            relay_start = if b then off else if length ds == 0 then at_once else head_start;
            errs = [];
            dials = ds;
          }))
  begun-IsSettled true ds = loop-IsSettled Conn Failed _ (length ds) off [] ds (omega arith) refl
  begun-IsSettled false [] = loop-IsSettled Conn Failed _ 0 at_once [] [] (omega arith) refl
  begun-IsSettled false (d ∷ ds) =
      let e : (suc (length ds) == 0) ≡ false = ground arith in
      rw e
        (loop-IsSettled Conn Failed _ (length (d ∷ ds)) head_start [] (d ∷ ds) (omega arith) refl)

  -- Whatever the race receives in whatever order: it gives up only once every way to the target
  -- was dialed, the relay of a daemon's target included and that of another never, and each of them
  -- failed; and once a connection is piped, each other dial has failed or is one of those whose
  -- connection closeLosers closes.
  pub run-start-IsSettled :
      (addr : Text → Text) (t : Target) (force_relay : Bool) (es : List (Event Conn Failed))
      → IsSettled Conn Failed
          (all_dials addr t force_relay)
          (run Conn Failed es (start Conn Failed addr t force_relay))
  unfolding start
  run-start-IsSettled addr t force_relay es =
      run-IsSettled Conn Failed (all_dials addr t force_relay) es
        (start Conn Failed addr t force_relay) started
    where
      started :
          IsSettled Conn Failed
            (all_dials addr t force_relay)
            (start Conn Failed addr t force_relay)
      started = elim (Bool-cases (force_relay && manual t)) [
        | inl e ↦ rw (start, e) tt
        | inr e ↦ elim (Bool-cases (manual t && length t.endpoints == 0)) [
          | inl q ↦ rw (start, e, q) tt
          | inr q ↦
              rw (start, e, q)
                (begun-IsSettled (manual t)
                  (if force_relay then [] else map (λ ep. direct (addr ep)) t.endpoints))
        ]
      ]
