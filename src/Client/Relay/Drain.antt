-- ===== src/Client/Relay/Drain.antt =====
-- internal/client/relay.go: a reader that calls Read until it returns an error, as io.Copy does.
use nk.Base.{
  ℕ, zero, suc, ◌+◌, ◌≤◌, ◌<◌, ◌≡◌, refl, sym, ap, ◌∙◌, List, [], ◌∷◌, ◌++◌, Option, none, some,
  length, All, drop, arith,
}
use nk.Client.Relay.{
  Bytes, ready, closed, other, payload, Received, message, end_of_stream, broken, ReadError, Stream,
  on_message, receive, read_from, read,
}
use nk.Client.Relay.Pipe.{Pipe, view, IsRead, read-IsRead}

-- The bytes of the reads, and the error that ended them; a size for each buffer.
pub record Drained : Type 0 where
  pub bytes : Bytes
  pub error : Option ReadError

-- A read, and what follows where it has no error.
unfoldable pub and_then : Bytes → Option ReadError → Drained → Drained
and_then bytes (some e) d = record { bytes = bytes; error = some e }
and_then bytes none d = record d { bytes = bytes ++ d.bytes }

unfoldable pub drain : List ℕ → Stream → Drained
unfolding read and_then
drain [] s = record { bytes = []; error = none }
drain (n ∷ ns) s = and_then (read n s).bytes (read n s).error (drain ns (read n s).stream)

-- The number of reads that are enough.
unfoldable pub reads : List Received → ℕ
reads [] = 1
reads (message (payload d) ∷ rest) = suc (length d + reads rest)
reads (r ∷ rest) = 1

unfoldable pub reads_of : Stream → ℕ
unfolding reads
reads_of s = length s.pending + reads s.incoming

abbrev IsDrained : Pipe → Drained → Type 0
IsDrained p d = (d.bytes ≡ p.left) × (d.error ≡ some p.ending)

and_then-IsDrained :
    (n : ℕ) (p q : Pipe) (bytes : Bytes) (e : Option ReadError) (d : Drained)
    → IsRead n p bytes e q
    → (e ≡ none → IsDrained q d)
    → IsDrained p (and_then bytes e d)
unfolding and_then
and_then-IsDrained n p q bytes (some e) d (b, l, x) h = (b ∙ sym l, ap some x)
and_then-IsDrained n p q bytes none d (b, x, l) h =
    let (c, f) = h refl in (ap (λ y. bytes ++ y) c ∙ b, f ∙ ap some x)

length-drop : (n : ℕ) (d : Bytes) → length (drop n d) ≤ length d
length-drop zero d = omega arith
length-drop (suc n) [] = omega arith
length-drop (suc n) (x ∷ d) = omega (arith, length-drop n d)

abbrev Leaves : ℕ → Option ReadError → Stream → Type 0
Leaves n (some e) s = Unit
Leaves n none s = reads_of s < n

receive-Leaves :
    (n : ℕ) (incoming : List Received)
    → let r = receive n incoming in Leaves (reads incoming) r.error r.stream
unfolding receive on_message reads reads_of
receive-Leaves n [] = tt
receive-Leaves n (end_of_stream ∷ rest) = tt
receive-Leaves n (broken ∷ rest) = tt
receive-Leaves n (message closed ∷ rest) = tt
receive-Leaves n (message ready ∷ rest) = tt
receive-Leaves n (message other ∷ rest) = tt
receive-Leaves n (message (payload d) ∷ rest) = omega (arith, length-drop n d)

Leaves-more : (m n : ℕ) (e : Option ReadError) (s : Stream) → Leaves m e s → m ≤ n → Leaves n e s
Leaves-more m n (some e) s l h = tt
Leaves-more m n none s l h = omega arith

read_from-Leaves :
    (n : ℕ) (pending : Bytes) (incoming : List Received)
    → 1 ≤ n
    → let r = read_from n pending incoming in
      Leaves (length pending + reads incoming) r.error r.stream
unfolding read_from reads_of
read_from-Leaves n [] incoming h =
    let r = receive n incoming in
    Leaves-more (reads incoming) _ r.error r.stream (receive-Leaves n incoming) (omega arith)
read_from-Leaves zero (b ∷ bs) incoming h = absurd (omega arith)
read_from-Leaves (suc n) (b ∷ bs) incoming h = omega (arith, length-drop n bs)

read-Leaves : (n : ℕ) (s : Stream) → 1 ≤ n → Leaves (reads_of s) (read n s).error (read n s).stream
unfolding read reads_of
read-Leaves n s h = read_from-Leaves n s.pending s.incoming h

reads_of_positive : (incoming : List Received) → 1 ≤ reads incoming
unfolding reads
reads_of_positive [] = omega arith
reads_of_positive (end_of_stream ∷ rest) = omega arith
reads_of_positive (broken ∷ rest) = omega arith
reads_of_positive (message closed ∷ rest) = omega arith
reads_of_positive (message ready ∷ rest) = omega arith
reads_of_positive (message other ∷ rest) = omega arith
reads_of_positive (message (payload d) ∷ rest) = omega arith

Leaves-room :
    (k n : ℕ) (e : Option ReadError) (s : Stream)
    → Leaves n e s
    → n ≤ suc k
    → e ≡ none
    → reads_of s ≤ k
Leaves-room k n (some e) s l h x = cc
Leaves-room k n none s l h x = omega arith

-- A reader whose buffers hold at least one byte each, and that calls Read once for each byte and
-- each response and once more, gets every byte in order and then the error that ended the stream,
-- whatever the sizes of its buffers are.
pub drain-IsDrained :
    (sizes : List ℕ) (s : Stream)
    → All (λ n. 1 ≤ n) sizes
    → reads_of s ≤ length sizes
    → (drain sizes s).bytes ≡ (view s).left × ((drain sizes s).error ≡ some (view s).ending)
unfolding drain
drain-IsDrained [] s a h = unfold reads_of in absurd (omega (arith, reads_of_positive s.incoming))
drain-IsDrained (n ∷ ns) s (p, a) h =
    let r = read n s in
    and_then-IsDrained n (view s) (view r.stream) r.bytes r.error (drain ns r.stream)
      (read-IsRead n s)
      (λ e.
        drain-IsDrained ns r.stream a
          (Leaves-room (length ns) (reads_of s) r.error r.stream (read-Leaves n s p) h e))
