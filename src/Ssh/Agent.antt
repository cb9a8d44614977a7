-- ===== src/Ssh/Agent.antt =====
-- internal/ssh/agent.go: the agent that signs with nk's identity. The key ring, the signer, the
-- socket and the files are arguments.
use nk.Base.{
  ℕ, zero, suc, ◌≡◌, refl, inl, inr, Bool, false, ◌&&◌, not, List, [], ◌∷◌, Option, none, some, any,
  keep, if◌then◌else◌, Bool-cases, arith,
}
use nk.Base.Text.{Text, codes, text_eq, CaseTables, cut, equal_fold}

-- shutdownExtension
abbrev pub shutdown_extension : Text
shutdown_extension = codes "shutdown@nokku.sh"

pub data AgentRequest : Type 0 where
  list_keys remove_all : AgentRequest
  sign add remove lock unlock extension : Text → AgentRequest

pub data AgentReply : Type 0 where
  keys_are : List Text → AgentReply
  signed_with : Option Text → AgentReply
  sign_only extension_unsupported shutting_down : AgentReply

-- The ring of a connection, and whether the agent still listens.
pub record Serving : Type 0 where
  pub keys : List Text
  pub listening : Bool

module _ (sign_by : List Text → Text → Option Text) where
  -- signOnly; what it embeds lists the keys and signs.
  unfoldable pub serve : AgentRequest → Serving → AgentReply × Serving
  unfolding text_eq
  serve list_keys s = (keys_are s.keys, s)
  serve (sign payload) s = (signed_with (sign_by s.keys payload), s)
  serve (add key) s = (sign_only, s)
  serve (remove key) s = (sign_only, s)
  serve remove_all s = (sign_only, s)
  serve (lock passphrase) s = (sign_only, s)
  serve (unlock passphrase) s = (sign_only, s)
  serve (extension name) s =
      if not (text_eq name shutdown_extension)
      then (extension_unsupported, s)
      else (shutting_down, record s { listening = false })

  -- A connection's requests, one after the other.
  unfoldable pub serve_all : List AgentRequest → Serving → Serving
  unfolding serve
  serve_all [] s = s
  serve_all (r ∷ rs) s = serve_all rs (serve r s).1

  abbrev pub asks_shutdown : AgentRequest → Bool
  asks_shutdown (extension name) = text_eq name shutdown_extension
  asks_shutdown _ = false

  -- Whatever a client asks for, the agent keeps its keys; and it stops listening exactly where one of
  -- the requests is nk's own shutdown extension.
  pub serve_all-signs_only :
      (rs : List AgentRequest) (s : Serving)
      → ((serve_all rs s).keys ≡ s.keys)
        × ((serve_all rs s).listening ≡ (s.listening && not (any asks_shutdown rs)))
  unfolding serve_all
  serve_all-signs_only [] s = (refl, ground arith)
  serve_all-signs_only (list_keys ∷ rs) s = serve_all-signs_only rs s
  serve_all-signs_only (remove_all ∷ rs) s = serve_all-signs_only rs s
  serve_all-signs_only (sign p ∷ rs) s = serve_all-signs_only rs s
  serve_all-signs_only (add k ∷ rs) s = serve_all-signs_only rs s
  serve_all-signs_only (remove k ∷ rs) s = serve_all-signs_only rs s
  serve_all-signs_only (lock p ∷ rs) s = serve_all-signs_only rs s
  serve_all-signs_only (unlock p ∷ rs) s = serve_all-signs_only rs s
  serve_all-signs_only (extension n ∷ rs) s = elim (Bool-cases (text_eq n shutdown_extension)) [
    | inr e ↦ simp e (serve_all-signs_only rs s)
    | inl e ↦
        let (k, l) = serve_all-signs_only rs (record s { listening = false }) in
        simp e (k, ground (arith, l))
  ]

-- identity: the public key that its ring was made for.
pub record Identity : Type 0 where
  pub public_key : Text
  pub ring : Option Text

unfoldable pub new_ring : Text → Option Text → Identity → Identity × Option Text
new_ring key none id = (id, none)
new_ring key (some r) id = (record { public_key = key; ring = some r }, some r)

unfoldable pub ring_for : Text → Option Text → Option Text → Identity → Identity × Option Text
unfolding text_eq new_ring
ring_for key none signer id = new_ring key signer id
ring_for key (some r) signer id =
    if text_eq key id.public_key then (id, some r) else new_ring key signer id

-- identity.keyring; `file` is the public key on disk and `signer` the ring of a new signer.
unfoldable pub keyring : Option Text → Option Text → Identity → Identity × Option Text
unfolding ring_for
keyring none signer id = (id, none)
keyring (some key) signer id = ring_for key id.ring signer id

-- agentEnv
unfoldable pub agent_env : CaseTables → List Text → List Text
unfolding cut equal_fold
agent_env u environ = keep (λ kv. not (equal_fold u (cut b'=' kv).0 (codes "NK_TOKEN"))) environ

-- What a wait of EnsureAgent receives.
pub data AgentPoll : Type 0 where
  context_done alive dead : AgentPoll

pub data AgentStart : Type 0 where
  serving no_executable not_started cancelled never_started : AgentStart

-- The loop of EnsureAgent, with that many rounds left; `polls` gives what each round receives.
unfoldable pub await_agent : ℕ → ℕ → (ℕ → AgentPoll) → AgentStart
await_agent zero i polls = never_started
await_agent (suc k) i polls =
    let later = await_agent k (suc i) polls in
    elim (polls i) [ context_done ↦ cancelled | alive ↦ serving | dead ↦ later ]

-- EnsureAgent; the Booleans are agentAlive, os.Executable and cmd.Start.
unfoldable pub ensure_agent : Bool → Bool → Bool → (ℕ → AgentPoll) → AgentStart
unfolding await_agent
ensure_agent up exe started polls =
    if up
    then serving
    else if not exe
    then no_executable
    else if not started
    then not_started
    else await_agent 50 0 polls

-- What the listener of RunAgent gives: an error of Accept, or a connection with the public key on
-- disk and the ring of a new signer at that moment.
pub data Accepted : Type 0 where
  accept_failed : Accepted
  connected : Option Text → Option Text → Accepted

-- The loop of RunAgent: for each connection the ring that serves it, or none where it is closed.
unfoldable pub accept_loop : List Accepted → Identity → List (Option Text)
unfolding keyring
accept_loop [] id = []
accept_loop (accept_failed ∷ rest) id = []
accept_loop (connected file signer ∷ rest) id =
    let r = keyring file signer id in r.1 ∷ accept_loop rest r.0

pub data AgentRun : Type 0 where
  already_running not_listening : AgentRun
  served : List (Option Text) → AgentRun

-- RunAgent; the Booleans are agentAlive before and behind listenAgent, and listenAgent's success.
unfoldable pub run_agent : Bool → Bool → Bool → List Accepted → AgentRun
unfolding accept_loop
run_agent up listens up_later accepts =
    if up
    then already_running
    else if listens
    then served (accept_loop accepts (record { public_key = []; ring = none }))
    else if up_later
    then already_running
    else not_listening
