-- ===== src/Examples/Tls.antt =====
-- The theorems on the TLS settings, at a client that names its ciphers and asks for no certificate.
use mathlib.Core.List.{Memᴰ}
use pyomb.Prelude.{if◌then◌else◌, true, false, none, some, [], ◌∷◌, ◌≡◌, ◌⊎◌, ◌↔◌}
use pyomb.Errors.{ok, err, os_error, value_error}
use pyomb.Transport.SslContext.{Ssl, protocol_tls_client, cert_none, cert_required}
use pyomb.Transport.Tls.{TlsSettings, client, context, relaxations, certificate_policy}
use pyomb.Transport.Tls.Building.{built, usable, knows, makes, negotiates, context-built}
use pyomb.Transport.Tls.Relaxations.{Carries, relaxations-carried}

abbrev ssl : Ssl
ssl = record {
  knows_protocol = λ number. true;
  reads_chain = λ cert key. true;
  reads_locations = λ ca_chain. true;
  knows_ciphers = λ suite. true;
}

abbrev settings : TlsSettings
settings = record {
  cert = 1 ∷ [];
  key = 2 ∷ [];
  ca_chain = 3 ∷ [];
  protocol = none;
  ciphers = some (some (4 ∷ []));
  verify_mode = some cert_none;
  verify_hostname = some false;
  options = none;
}

settings_made : context ssl settings client ≡ ok (built settings client)
unfolding makes negotiates usable knows
settings_made = context-built ssl settings client

context-built_example : context ssl settings client ≡ (
    if makes ssl protocol_tls_client
    then (if usable ssl settings
        then (if negotiates protocol_tls_client
            then ok (built settings client)
            else err value_error)
        else err os_error)
    else err value_error)
context-built_example = context-built ssl settings client

relaxations-carried_example :
    (Memᴰ (certificate_policy cert_none) (relaxations settings client)
      ↔ Carries client (built settings client) (certificate_policy cert_none))
    ⊎ (Memᴰ (certificate_policy cert_none) (relaxations settings client)
        × ((built settings client).verify_mode ≡ cert_required)
        × ((built settings client).check_hostname ≡ true))
relaxations-carried_example =
    relaxations-carried ssl settings client (built settings client) (certificate_policy cert_none)
      settings_made
