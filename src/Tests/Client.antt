-- ===== src/Tests/Client.antt =====
-- internal/client at concrete inputs.
use nk.Base.{true, List, [], ◌∷◌, some}
use nk.Base.Text.{Text, codes}
use nk.Client.Login.{Exchange, ticked}

abbrev reply : Text → Text → Exchange
reply token error = record {
  answered = true;
  reply = some (record { access_token = token; expires_in = 3600; error = error });
  nonce_fetched = true;
  wake = ticked;
}

abbrev exchanges : List Exchange
exchanges =
    reply [] (codes "use_dpop_nonce") ∷ reply [] (codes "slow_down") ∷ reply (codes "token") [] ∷ []
