-- ===== src/Client/Relay/Session.antt =====
-- internal/client/relay.go: how the handshake of Relay may end.
use nk.Base.{◌≡◌, refl, false, List, [], ◌∷◌, Option, none, some, inl, inr, Bool-cases, ◌⊎◌}
use nk.Base.Text.{is_empty}
use nk.State.{Target}
use nk.Client.Relay.{
  ready, closed, other, payload, Received, message, end_of_stream, broken, Stream, start, Effect,
  open_stream, close_request, close_response, send, RelayError, Backend, handshake, relay,
}

-- How Relay may end with these effects: with a stream where the daemon was named first and is
-- ready; with an error otherwise, and then a stream that was opened is closed in both directions.
abbrev pub IsOpened : Target → Backend → List Effect → Option Stream → Option RelayError → Type 0
IsOpened t b es (some s) e =
    (is_empty t.daemon_id ≡ false)
    × (e ≡ none)
    × (b.first ≡ message ready)
    × (es ≡ open_stream ∷ send (start t.daemon_id) ∷ [])
    × (s ≡ record { pending = []; incoming = b.rest })
IsOpened t b es none e =
    (¬ (e ≡ none))
    × ((es ≡ [])
        ⊎ ((es ≡ open_stream ∷ []) × (b.opens ≡ false))
        ⊎ (es ≡ open_stream ∷ send (start t.daemon_id) ∷ close_request ∷ close_response ∷ []))

abbrev named : Target → List Effect
named t = open_stream ∷ send (start t.daemon_id) ∷ []

handshake-IsOpened :
    (t : Target) (b : Backend) (m : Received)
    → is_empty t.daemon_id ≡ false
    → b.first ≡ m
    → let o = handshake m b.rest (named t) in IsOpened t b o.effects o.stream o.error
unfolding handshake
handshake-IsOpened t b (message ready) d f = (d, refl, f, refl, refl)
handshake-IsOpened t b (message closed) d f = (λ e. cc, inr (inr refl))
handshake-IsOpened t b (message other) d f = (λ e. cc, inr (inr refl))
handshake-IsOpened t b (message (payload p)) d f = (λ e. cc, inr (inr refl))
handshake-IsOpened t b end_of_stream d f = (λ e. cc, inr (inr refl))
handshake-IsOpened t b broken d f = (λ e. cc, inr (inr refl))

-- Relay gives a stream only for a target with a daemon, after it has sent that daemon's id and
-- nothing else and has received Ready, and the stream then has nothing pending; with an error
-- there is no stream, nothing was opened or the opening failed or the stream was closed in both
-- directions.
pub relay-IsOpened :
    (t : Target) (b : Backend) → let o = relay t b in IsOpened t b o.effects o.stream o.error
unfolding relay
relay-IsOpened t b = elim (Bool-cases (is_empty t.daemon_id)) [
  | inl d ↦ rw d (λ e. cc, inl refl)
  | inr d ↦ elim (Bool-cases b.opens) [
    | inr o ↦ rw (d, o) (λ e. cc, inr (inl (refl, refl)))
    | inl o ↦ elim (Bool-cases b.start_sent) [
      | inr s ↦ rw (d, o, s) (λ e. cc, inr (inr refl))
      | inl s ↦ simp (d, o, s) (handshake-IsOpened t b b.first d refl)
    ]
  ]
]
