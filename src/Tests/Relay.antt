-- ===== src/Tests/Relay.antt =====
-- internal/client/relay.go at concrete inputs.
use nk.Base.{arith, ℕ, ◌≡◌, refl, true, List, [], ◌∷◌, some}
use nk.Client.Relay.{ready, closed, payload, message, Stream, Backend, read, relay}
use nk.Client.Relay.Pipe.{IsRead, view, read-IsRead}
use nk.Client.Relay.Drain.{drain, reads_of, drain-IsDrained}
use nk.Client.Relay.Session.{IsOpened, relay-IsOpened}
use nk.Tests.Data.{db}

-- A byte left over, a message that no buffer of two bytes holds, and the end.
abbrev stream : Stream
stream = record {
  pending = 1 ∷ [];
  incoming = message (payload (2 ∷ 3 ∷ 4 ∷ [])) ∷ message closed ∷ [];
}

abbrev next : Stream
next = record { pending = []; incoming = stream.incoming }

read-IsRead_example :
    let r = read 2 stream in IsRead 2 (view stream) r.bytes r.error (view r.stream)
read-IsRead_example = read-IsRead 2 stream

abbrev sizes : List ℕ
sizes = 2 ∷ 2 ∷ 1 ∷ 1 ∷ 2 ∷ 2 ∷ []

drain-IsDrained_example :
    ((drain sizes stream).bytes ≡ (view stream).left)
    × ((drain sizes stream).error ≡ some (view stream).ending)
unfolding reads_of
drain-IsDrained_example =
    drain-IsDrained sizes stream
      (omega arith, (omega arith, (omega arith, (omega arith, (omega arith, (omega arith, tt))))))
      (omega arith)

-- Every byte arrives in order, although no buffer holds the message.
drained : (drain sizes stream).bytes ≡ 1 ∷ 2 ∷ 3 ∷ 4 ∷ []
unfolding drain read
drained = refl

abbrev backend : Backend
backend = record { opens = true; start_sent = true; first = message ready; rest = stream.incoming }

relay-IsOpened_example : let o = relay db backend in IsOpened db backend o.effects o.stream o.error
relay-IsOpened_example = relay-IsOpened db backend
