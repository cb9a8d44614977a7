-- ===== src/Client/Login/Token.antt =====
-- internal/client/login.go: which reply signs in.
use nk.Base.{
  ℕ, suc, ◌≡◌, refl, inl, inr, Bool, true, false, ◌&&◌, ◌||◌, not, List, [], ◌∷◌, Option, none,
  some, Member, if◌then◌else◌, arith, Bool-cases, both_true,
}
use nk.Client.Login.Polls.{poll-ended}
use nk.Base.Text.{Text, codes, text_eq, is_empty}
use nk.Client.Login.{
  Reply, Wake, ticked, cancelled, timed_out, Exchange, Polling, LoginError, Verdict, token, give_up,
  retry, pause, on_error, no_code, nonce_rejected, proof_rejected, no_nonce, denied, code_expired,
  sign_in_cancelled, sign_in_timed_out, other, judge, judge_reply, Poll, polling, signed_in, failed,
  await, follow, poll, poll_device_token, longer,
}

-- An exchange whose reply carries a token, without an error of the request.
abbrev pub Grants : Text → ℕ → Exchange → Type 0
Grants t n x =
    (r : Reply) × (x.reply ≡ some r)
    × (x.answered ≡ true)
    × (is_empty t ≡ false)
    × (r.access_token ≡ t)
    × (r.expires_in ≡ n)

-- What a verdict says of the exchange behind it.
abbrev IsGranted : Exchange → Verdict → Type 0
IsGranted x (token t n) = Grants t n x
IsGranted x _ = Unit

no_code-IsGranted : (x : Exchange) (b : Bool) → IsGranted x (no_code b)
no_code-IsGranted x true = tt
no_code-IsGranted x false = tt

-- The shape of the switch over the error code, which has no token.
switch-IsGranted :
    (x : Exchange) (b1 b2 n b3 b d f b4 b5 b6 : Bool) (p q r s : Polling)
    (e1 e2 e3 e4 e5 e6 : LoginError)
    → IsGranted x (
        if b1
        then pause p
        else if b2
        then (if n then give_up e1 else retry q)
        else if b3
        then (if b || not d then give_up e2 else if not f then give_up e3 else retry r)
        else if b4
        then pause s
        else if b5
        then give_up e4
        else if b6
        then give_up e5
        else give_up e6)
switch-IsGranted x true b2 n b3 b d f b4 b5 b6 p q r s e1 e2 e3 e4 e5 e6 = tt
switch-IsGranted x false true true b3 b d f b4 b5 b6 p q r s e1 e2 e3 e4 e5 e6 = tt
switch-IsGranted x false true false b3 b d f b4 b5 b6 p q r s e1 e2 e3 e4 e5 e6 = tt
switch-IsGranted x false false n true true d f b4 b5 b6 p q r s e1 e2 e3 e4 e5 e6 = tt
switch-IsGranted x false false n true false false f b4 b5 b6 p q r s e1 e2 e3 e4 e5 e6 = tt
switch-IsGranted x false false n true false true false b4 b5 b6 p q r s e1 e2 e3 e4 e5 e6 = tt
switch-IsGranted x false false n true false true true b4 b5 b6 p q r s e1 e2 e3 e4 e5 e6 = tt
switch-IsGranted x false false n false b d f true b5 b6 p q r s e1 e2 e3 e4 e5 e6 = tt
switch-IsGranted x false false n false b d f false true b6 p q r s e1 e2 e3 e4 e5 e6 = tt
switch-IsGranted x false false n false b d f false false true p q r s e1 e2 e3 e4 e5 e6 = tt
switch-IsGranted x false false n false b d f false false false p q r s e1 e2 e3 e4 e5 e6 = tt

judge_reply-IsGranted :
    (dpop : Bool) (x : Exchange) (o : Option Reply) (p : Polling)
    → x.reply ≡ o
    → IsGranted x (judge_reply dpop x.answered x.nonce_fetched o p)
unfolding judge_reply on_error
judge_reply-IsGranted dpop x none p e = no_code-IsGranted x x.answered
judge_reply-IsGranted dpop x (some r) p e =
    elim (Bool-cases (x.answered && not (is_empty r.access_token))) [
      | inl q ↦
          let (a, b) = both_true x.answered (not (is_empty r.access_token)) q in
          rw q (r, e, a, ground (arith, b), refl, refl)
      | inr q ↦ elim (Bool-cases (is_empty r.error)) [
        | inl k ↦ rw (q, k) (no_code-IsGranted x x.answered)
        | inr k ↦
            let is = λ (s : Text). text_eq r.error s in
            rw (q, k)
              (switch-IsGranted x (is (codes "authorization_pending")) (is (codes "use_dpop_nonce"))
                p.nonce_retried (is (codes "invalid_dpop_proof")) p.bootstrapped dpop
                x.nonce_fetched (is (codes "slow_down")) (is (codes "access_denied"))
                (is (codes "expired_token")) p (record p { nonce_retried = true })
                (record p { bootstrapped = true }) (record p { wait = longer p.wait })
                nonce_rejected proof_rejected no_nonce denied code_expired (other r.error))
      ]
    ]

-- A poll that signs in has its token from one of the exchanges.
abbrev pub IsSource : List Exchange → Poll → Type 0
IsSource xs (signed_in t n) = (x : Exchange) × Member x xs × Grants t n x
IsSource xs _ = Unit

further : (x : Exchange) (xs : List Exchange) (o : Poll) → IsSource xs o → IsSource (x ∷ xs) o
further x xs (signed_in t n) (y, m, g) = (y, inr m, g)
further x xs (polling p w) h = tt
further x xs (failed e) h = tt

verdict-IsSource :
    (dpop : Bool) (x : Exchange) (xs : List Exchange) (v : Verdict) (w : Wake) (waits : ℕ)
    → IsGranted x v
    → ((p : Polling) (k : ℕ) → IsSource xs (poll dpop xs (polling p k)))
    → IsSource (x ∷ xs) (poll dpop xs (follow v w waits))
unfolding follow await
verdict-IsSource dpop x xs (token t n) w waits g next =
    rw ((poll-ended dpop xs).0 t n) (x, inl refl, g)
verdict-IsSource dpop x xs (give_up e) w waits g next = rw ((poll-ended dpop xs).1 e) tt
verdict-IsSource dpop x xs (retry p) w waits g next =
    further x xs (poll dpop xs (polling p waits)) (next p waits)
verdict-IsSource dpop x xs (pause p) cancelled waits g next =
    rw ((poll-ended dpop xs).1 sign_in_cancelled) tt
verdict-IsSource dpop x xs (pause p) timed_out waits g next =
    rw ((poll-ended dpop xs).1 sign_in_timed_out) tt
verdict-IsSource dpop x xs (pause p) ticked waits g next =
    let q : Polling = record p { nonce_retried = false } in
    further x xs (poll dpop xs (polling q (suc waits))) (next q (suc waits))

poll-IsSource :
    (dpop : Bool) (xs : List Exchange) (p : Polling) (waits : ℕ)
    → IsSource xs (poll dpop xs (polling p waits))
unfolding poll judge
poll-IsSource dpop [] p waits = tt
poll-IsSource dpop (x ∷ xs) p waits =
    verdict-IsSource dpop x xs (judge dpop x p) x.wake waits
      (judge_reply-IsGranted dpop x x.reply p refl) (λ q k. poll-IsSource dpop xs q k)

-- A token comes from a reply: where the polling signs in, one of its exchanges was answered without
-- an error of the request, and its reply has that token, which is not empty, and that lifetime.
pub poll_device_token-IsSource :
    (dpop : Bool) (interval : ℕ) (xs : List Exchange)
    → IsSource xs (poll_device_token dpop interval xs)
unfolding poll_device_token
poll_device_token-IsSource dpop interval xs = poll-IsSource dpop xs _ 0
