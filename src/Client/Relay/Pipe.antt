-- ===== src/Client/Relay/Pipe.antt =====
-- internal/client/relay.go: relayStream as a pipe of bytes that does not show the messages.
use nk.Base.{
  ℕ, ◌≤◌, ◌≡◌, refl, sym, ap, ◌∙◌, List, [], ◌∷◌, ◌++◌, Option, none, some, length, take, drop,
  length-take, take-append-drop, append_assoc, arith,
}
use nk.Client.Relay.{
  Bytes, ready, closed, other, payload, Received, message, end_of_stream, broken, ReadError, eof,
  receive_failed, unexpected, Stream, on_message, receive, read_from, read,
}

-- The abstract pipe: the bytes still to be read, and what a read behind them returns.
pub record Pipe : Type 0 where
  pub left : Bytes
  pub ending : ReadError

abbrev pub before : Bytes → Pipe → Pipe
before d p = record p { left = d ++ p.left }

abbrev pub ended : ReadError → Pipe
ended e = record { left = []; ending = e }

unfoldable pub pipe_of : List Received → Pipe
pipe_of [] = ended eof
pipe_of (end_of_stream ∷ rest) = ended eof
pipe_of (broken ∷ rest) = ended receive_failed
pipe_of (message closed ∷ rest) = ended eof
pipe_of (message ready ∷ rest) = ended unexpected
pipe_of (message other ∷ rest) = ended unexpected
pipe_of (message (payload d) ∷ rest) = before d (pipe_of rest)

unfoldable pub view : Stream → Pipe
view s = before s.pending (pipe_of s.incoming)

-- What a read of a pipe into a buffer of n bytes may return: the next bytes, which leave the rest,
-- or the ending once nothing is left.
abbrev pub IsRead : ℕ → Pipe → Bytes → Option ReadError → Pipe → Type 0
IsRead n p bytes none q = (bytes ++ q.left ≡ p.left) × (q.ending ≡ p.ending) × (length bytes ≤ n)
IsRead n p bytes (some e) q = (bytes ≡ []) × (p.left ≡ []) × (e ≡ p.ending)

copied-IsRead :
    (n : ℕ) (d : Bytes) (p : Pipe) → IsRead n (before d p) (take n d) none (before (drop n d) p)
copied-IsRead n d p = (
  sym (append_assoc (take n d) (drop n d) p.left) ∙ ap (λ x. x ++ p.left) (take-append-drop n d),
  refl,
  omega (arith, length-take n d),
)

receive-IsRead :
    (n : ℕ) (incoming : List Received)
    → let r = receive n incoming in IsRead n (pipe_of incoming) r.bytes r.error (view r.stream)
unfolding receive on_message pipe_of view
receive-IsRead n [] = (refl, refl, refl)
receive-IsRead n (end_of_stream ∷ rest) = (refl, refl, refl)
receive-IsRead n (broken ∷ rest) = (refl, refl, refl)
receive-IsRead n (message closed ∷ rest) = (refl, refl, refl)
receive-IsRead n (message ready ∷ rest) = (refl, refl, refl)
receive-IsRead n (message other ∷ rest) = (refl, refl, refl)
receive-IsRead n (message (payload d) ∷ rest) = copied-IsRead n d (pipe_of rest)

read_from-IsRead :
    (n : ℕ) (pending : Bytes) (incoming : List Received)
    → let r = read_from n pending incoming in
      IsRead n (before pending (pipe_of incoming)) r.bytes r.error (view r.stream)
unfolding read_from view
read_from-IsRead n [] incoming = receive-IsRead n incoming
read_from-IsRead n (b ∷ bs) incoming = copied-IsRead n (b ∷ bs) (pipe_of incoming)

-- Read implements the pipe of the payloads that come before the first other response: into a
-- buffer of any size it stores the next bytes, no more than fit, and leaves the rest; it returns an
-- error only once nothing is left, and it is the one that the first other response stands for.
pub read-IsRead :
    (n : ℕ) (s : Stream) → let r = read n s in IsRead n (view s) r.bytes r.error (view r.stream)
unfolding read view
read-IsRead n s = read_from-IsRead n s.pending s.incoming
