-- ===== src/Ssh/Proxy.antt =====
-- internal/ssh/proxy.go: the race of direct dials and the relay. What the loop of Proxy receives is
-- a list of events; connections and dial errors are types of the caller's.
pub mod Race
pub mod Ends
use nk.Base.{
  ℕ, zero, suc, ◌+◌, ◌-◌, ◌≡◌, refl, Bool, true, false, ◌&&◌, ◌||◌, not, List, [], ◌∷◌, ◌++◌,
  Option, none, some, map, length, ◌==◌, if◌then◌else◌, arith,
}
use nk.Base.Text.{Text, is_empty}
use nk.State.{Target, manual}

-- A goroutine that dials: an endpoint's address, or the relay.
pub data Dial : Type 0 where
  direct : Text → Dial
  relay : Dial

-- relayStart: the nil channel, a timer of relayHeadStart, and time.After(0)
pub data Timer : Type 0 where
  off head_start at_once : Timer

abbrev pub is_off : Timer → Bool
is_off off = true
is_off _ = false

pub data Refusal : Type 0 where
  no_daemon no_address : Refusal

module _ (Conn : Type 0) (Failed : Type 0) where
  -- The variables of the loop, and the dials that were started, in order.
  pub record Racing : Type 0 where
    pub pending : ℕ
    pub relay_start : Timer
    pub errs : List Failed
    pub dials : List Dial

  -- What a select receives: the timer, or the result of a dial.
  pub data Event : Type 0 where
    fired : Event
    failed : Failed → Event
    connected : Conn → Event

  -- `piped` has the connection, and how many others closeLosers waits for and closes. `unreachable`
  -- has the joined errors. `stuck` marks an event that the select could not receive.
  pub data Status : Type 0 where
    refused : Refusal → Status
    racing : Racing → Status
    piped : Conn → ℕ → Racing → Status
    unreachable : Racing → Status
    stuck : Status

  -- the condition of the loop: `pending > 0 || relayStart != nil`
  unfoldable pub loop : Racing → Status
  loop r = if not (r.pending == 0) || not (is_off r.relay_start) then racing r else unreachable r

  -- One round of the loop's select.
  unfoldable pub receive : Event → Racing → Status
  unfolding loop
  receive fired r =
      if is_off r.relay_start
      then stuck
      else loop (record {
        pending = suc r.pending;
        relay_start = off;
        errs = r.errs;
        dials = r.dials ++ relay ∷ [];
      })
  receive (failed e) r = elim r.pending [
    | zero ↦ stuck
    | suc n ↦ loop (record {
      pending = n;
      relay_start = if n == 0 && not (is_off r.relay_start) then at_once else r.relay_start;
      errs = r.errs ++ e ∷ [];
      dials = r.dials;
    })
  ]
  receive (connected c) r = elim r.pending [
    | zero ↦ stuck
    | suc n ↦ piped c n (record r { pending = n })
  ]

  -- The loop: once it has ended it receives nothing more.
  unfoldable pub run : List Event → Status → Status
  unfolding receive
  run [] s = s
  run (e ∷ es) (racing r) = run es (receive e r)
  run (e ∷ es) s = s

  -- Proxy up to its loop; `addr` is endpointAddr at the port of the command.
  unfoldable pub start : (Text → Text) → Target → Bool → Status
  unfolding manual loop
  start addr t force_relay =
      let dials = if force_relay then [] else map (λ ep. direct (addr ep)) t.endpoints in
      if force_relay && manual t
      then refused no_daemon
      else if manual t && length t.endpoints == 0
      then refused no_address
      else loop (record {
        pending = length dials;
        relay_start = if manual t then off else if length dials == 0 then at_once else head_start;
        errs = [];
        dials = dials;
      })
