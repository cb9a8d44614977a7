-- ===== src/Client/Login/Polls.antt =====
-- internal/client/login.go: what the polling of the device flow keeps to.
use nk.Base.{ℕ, suc, ◌+◌, ◌*◌, ◌≡◌, ◌≤◌, refl, Bool, true, false, List, [], ◌∷◌, length}
use nk.Base.Text.{Text}
use nk.Client.Login.{
  Exchange, Polling, LoginError, Verdict, token, give_up, retry, pause, Poll, polling, signed_in,
  failed, poll,
}

-- The retries without a wait that are left.
abbrev retries : Bool → ℕ
retries true = 0
retries false = 1

abbrev budget : Polling → ℕ
budget p = retries p.bootstrapped + retries p.nonce_retried

-- What a verdict does to the retries.
abbrev IsPatient : Polling → Verdict → Type 0
IsPatient p (token t n) = Unit
IsPatient p (give_up e) = Unit
IsPatient p (retry q) = suc (budget q) ≤ budget p
IsPatient p (pause q) = budget q ≤ budget p

-- How a poll that began with `p` and `waits` stands behind some exchanges.
abbrev IsPolite : List Exchange → Polling → ℕ → Poll → Type 0
IsPolite xs p waits (polling q v) = length xs + budget q + 2 * waits ≤ budget p + 2 * v
IsPolite xs p waits _ = Unit

pub poll-ended :
    (dpop : Bool) (xs : List Exchange)
    → ((t : Text) (n : ℕ) → poll dpop xs (signed_in t n) ≡ signed_in t n)
      × ((e : LoginError) → poll dpop xs (failed e) ≡ failed e)
unfolding poll
poll-ended dpop [] = ((λ t n. refl), (λ e. refl))
poll-ended dpop (x ∷ xs) = ((λ t n. refl), (λ e. refl))

abbrev pub IsWithin : List Exchange → Poll → Type 0
IsWithin xs (polling q waits) = length xs ≤ 2 + 2 * waits
IsWithin xs _ = Unit
