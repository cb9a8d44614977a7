-- ===== src/Client/Login/Opened.antt =====
-- internal/client/login.go: what a sign-in shows and opens, and what it keeps.
use nk.Base.{ℕ, ◌≡◌, refl, Bool, true, false, ◌||◌, Option, any, Member}
use nk.Base.Text.{Text, is_control}
use nk.State.{State}
use nk.State.Disk.{Disk}
use nk.Client.Login.{Exchange}
use nk.Client.Login.Token.{Grants}
use nk.Client.Login.Device.{
  Begun, begun, not_begun, web_scheme, Shown, link, code, opened, LoginEnd, login_done, waiting,
  login_failed, no_start, no_token, not_saved, SignIn, with_token,
}

or_false : (a b : Bool) → (a || b) ≡ false → (a ≡ false) × (b ≡ false)
or_false true b h = cc
or_false false b h = (refl, h)

-- What a sign-in leaves.
abbrev pub IsKept : SignIn → State → Disk → State → Disk → LoginEnd → Type 0
IsKept a s d s' d' login_done =
    ((t : Text) × (n : ℕ) × (x : Exchange) × Member x a.exchanges
      × Grants t n x
      × (s' ≡ with_token a.clock t n s))
    × (d' ≡ record { config_json = s'.config; cache_json = s'.cache })
IsKept a s d s' d' waiting = (s' ≡ s) × (d' ≡ d)
IsKept a s d s' d' (login_failed (not_saved e)) =
    (s'.cache ≡ s.cache) × (d'.cache_json ≡ d.cache_json)
IsKept a s d s' d' (login_failed (no_start e)) = (s' ≡ s) × (d' ≡ d)
IsKept a s d s' d' (login_failed (no_token e)) = (s' ≡ s) × (d' ≡ d)

module _ (parse_scheme : Text → Option Text) where
  -- Nothing that is shown starts an escape sequence, and only a web address is opened.
  abbrev pub IsShowable : Shown → Type 0
  IsShowable (link u) = any is_control u ≡ false
  IsShowable (code c) = any is_control c ≡ false
  IsShowable (opened u) = web_scheme (parse_scheme u) ≡ true

  abbrev IsChecked : Begun → Type 0
  IsChecked (not_begun e) = Unit
  IsChecked (begun d) =
      (any is_control d.user_code ≡ false)
      × (any is_control d.verification_uri ≡ false)
      × (web_scheme (parse_scheme d.verification_uri) ≡ true)
