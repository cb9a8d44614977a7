-- ===== src/Client/Relay.antt =====
-- internal/client/relay.go: the stream to a target's daemon. What the stream receives, and whether
-- a send succeeds, are arguments.
pub mod Pipe
pub mod Drain
pub mod Session
use nk.Base.{ℕ, Bool, List, [], ◌∷◌, ◌++◌, Option, none, some, length, take, drop, if◌then◌else◌}
use nk.Base.Text.{Text, is_empty}
use nk.State.{Target}

abbrev pub Bytes : Type 0
Bytes = List ℕ

-- RelayResponse's message; `other` is any other one, or none.
pub data Message : Type 0 where
  ready closed other : Message
  payload : Bytes → Message

-- What stream.Receive returns: a message, io.EOF or another error.
pub data Received : Type 0 where
  message : Message → Received
  end_of_stream broken : Received

pub data ReadError : Type 0 where
  eof receive_failed unexpected : ReadError

-- relayStream: what is left of a message, and what the stream is going to receive. A stream
-- without more to receive has ended.
pub record Stream : Type 0 where
  pub pending : Bytes
  pub incoming : List Received

-- What a Read stores in its buffer and returns, and the stream behind it.
pub record Read : Type 0 where
  pub bytes : Bytes
  pub error : Option ReadError
  pub stream : Stream

abbrev pub failed_read : ReadError → List Received → Read
failed_read e rest = record {
  bytes = [];
  error = some e;
  stream = record { pending = []; incoming = rest };
}

-- `copy(p, data)` into a buffer of n bytes, with the rest kept for the next Read.
abbrev pub copied : ℕ → Bytes → List Received → Read
copied n bytes rest = record {
  bytes = take n bytes;
  error = none;
  stream = record { pending = drop n bytes; incoming = rest };
}

unfoldable pub on_message : ℕ → Message → List Received → Read
on_message n closed rest = failed_read eof rest
on_message n (payload d) rest = copied n d rest
on_message n ready rest = failed_read unexpected rest
on_message n other rest = failed_read unexpected rest

unfoldable pub receive : ℕ → List Received → Read
unfolding on_message
receive n [] = failed_read eof []
receive n (end_of_stream ∷ rest) = failed_read eof rest
receive n (broken ∷ rest) = failed_read receive_failed rest
receive n (message m ∷ rest) = on_message n m rest

unfoldable pub read_from : ℕ → Bytes → List Received → Read
unfolding receive
read_from n [] incoming = receive n incoming
read_from n (b ∷ bs) incoming = copied n (b ∷ bs) incoming

-- relayStream.Read with a buffer of n bytes
unfoldable pub read : ℕ → Stream → Read
unfolding read_from
read n s = read_from n s.pending s.incoming

-- RelayRequest's message
pub data Request : Type 0 where
  start : Text → Request
  data_request : Bytes → Request

-- What happens on the stream.
pub data Effect : Type 0 where
  open_stream close_request close_response : Effect
  send : Request → Effect

pub data RelayError : Type 0 where
  not_a_daemon not_opened start_failed not_ready unexpected_response : RelayError

-- What the backend does: the stream opens, the start is sent, and the first response.
pub record Backend : Type 0 where
  pub opens : Bool
  pub start_sent : Bool
  pub first : Received
  pub rest : List Received

-- The effects, and the stream or the error.
pub record Opened : Type 0 where
  pub effects : List Effect
  pub stream : Option Stream
  pub error : Option RelayError

-- The deferred close.
abbrev pub given_up : RelayError → List Effect → Opened
given_up e es = record {
  effects = es ++ (close_request ∷ close_response ∷ []);
  stream = none;
  error = some e;
}

unfoldable pub handshake : Received → List Received → List Effect → Opened
handshake (message ready) rest es = record {
  effects = es;
  stream = some (record { pending = []; incoming = rest });
  error = none;
}
handshake (message closed) rest es = given_up unexpected_response es
handshake (message other) rest es = given_up unexpected_response es
handshake (message (payload d)) rest es = given_up unexpected_response es
handshake end_of_stream rest es = given_up not_ready es
handshake broken rest es = given_up not_ready es

-- Client.Relay
unfoldable pub relay : Target → Backend → Opened
unfolding handshake
relay t b =
    if is_empty t.daemon_id
    then record { effects = []; stream = none; error = some not_a_daemon }
    else if b.opens
    then (let es = open_stream ∷ send (start t.daemon_id) ∷ [] in
        if b.start_sent then handshake b.first b.rest es else given_up start_failed es)
    else record { effects = open_stream ∷ []; stream = none; error = some not_opened }

-- relayStream.Write; the Boolean is whether the send succeeds, the result is the count and whether
-- there is an error.
unfoldable pub write : Bool → Bytes → List Effect × (ℕ × Bool)
write sent p = (send (data_request p) ∷ [], if sent then (length p, Bool.false) else (0, Bool.true))

-- relayStream.CloseWrite and relayStream.Close
unfoldable pub close_write : List Effect
close_write = close_request ∷ []

unfoldable pub close : List Effect
close = close_request ∷ close_response ∷ []
