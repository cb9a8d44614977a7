-- ===== src/Tests/Certs.antt =====
-- internal/ssh/certs.go at concrete inputs.
use nk.Base.{
  ◌+◌, ◌-◌, ◌*◌, ◌/◌, ◌≡◌, ◌≢◌, ◌↔◌, ◌≤◌, ◌<◌, ◌^◌, refl, [], ◌∷◌, Option, none, some, All, arith,
  if◌then◌else◌,
}
use nk.Base.Text.{Text, codes, text_eq}
use nk.Base.Clock.{pos, half, second}
use nk.Ssh.Certs.{Certificate, PublicKey, certificate, plain_key, check_cert, cert_fresh}
use nk.Ssh.Certs.Window.{at_second, Names, check_cert_iff, check_cert-forever, cert_fresh_sound}
use nk.Tests.Data.{web, ca}

-- An hour's certificate, one that is valid forever, and the CA's key.
abbrev pub hour : Certificate
hour = record {
  valid_after = 1_700_000_000;
  valid_before = 1_700_003_600;
  valid_principals = codes "web:root" ∷ [];
  signature_key = some (codes "CA");
}

abbrev forever : Certificate
forever = record hour { valid_before = 2 ^ 64 - 1 }

abbrev pub parse_key : Text → Option PublicKey
parse_key line =
    if text_eq line (codes "hour")
    then some (certificate hour)
    else if text_eq line (codes "forever")
    then some (certificate forever)
    else some (plain_key (codes "CA"))

abbrev pub marshal : PublicKey → Text
marshal (plain_key k) = k
marshal (certificate c) = []

check_cert_iff_example :
    (check_cert parse_key marshal (at_second 1_700_000_060) (codes "hour") (codes "ca") (pos 5)
      ≡ none)
    ↔ ((hour.signature_key ≡ some (marshal (plain_key (codes "CA"))))
        × (at_second hour.valid_after ≤ at_second 1_700_000_060)
        × (at_second 1_700_000_060 + 5 < at_second hour.valid_before))
unfolding text_eq
check_cert_iff_example =
    check_cert_iff parse_key marshal (at_second 1_700_000_060) (codes "hour") (codes "ca") hour
      (plain_key (codes "CA")) 5 refl refl (omega arith) (omega arith) (omega arith)

check_cert-forever_example :
    check_cert parse_key marshal (at_second 1_700_000_060) (codes "forever") (codes "ca") (pos 0)
    ≢ none
unfolding text_eq
check_cert-forever_example =
    check_cert-forever parse_key marshal (at_second 1_700_000_060) (codes "forever") (codes "ca")
      forever 0 refl (omega arith) (omega arith)

cert_fresh_sound_example :
    (hour.signature_key ≡ some (marshal (plain_key (codes "CA"))))
    × All (Names hour) web.usernames
    × (at_second hour.valid_after ≤ at_second 1_700_000_060)
    × (at_second 1_700_000_060 + (hour.valid_before - hour.valid_after) * second / 2
        < at_second hour.valid_before)
unfolding text_eq cert_fresh half
cert_fresh_sound_example =
    cert_fresh_sound parse_key marshal (at_second 1_700_000_060) (codes "hour") web ca hour
      (plain_key (codes "CA")) refl refl (omega arith) (omega arith) (omega arith) refl
