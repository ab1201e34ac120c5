-- ===== src/Pki/Tls.antt =====
-- The rest of pki.go: the fingerprint of a certificate, the TLS configurations of the two roles, and
-- the subcommands of `plv pki`.
use plv.Prelude.{
  ℕ, ◌+◌, ◌-◌, ◌/◌, ◌%◌, Bool, true, false, ltb, if◌then◌else◌, List, [], ◌∷◌, Option, none, some,
  map,
}
use plv.Go.Text.{Text, lit, is_empty, text_eq, join}
use plv.Go.Map.{lookup}
use plv.Go.Time.{Time}
use plv.Go.Time.Parse.{◌>>=◌}
use plv.Pki.{
  Crypto, Files, ca_cert_file, cert_file, key_file, load_cert, pki_init, pki_server,
  load_ticket_salt, ticket_for, flag_value,
}

unfoldable pub upper_digit : ℕ → ℕ
upper_digit d = if ltb d 10 then b'0' + d else b'A' + (d - 10)

-- %02X of a byte
unfoldable pub upper_pair : ℕ → Text
upper_pair c = upper_digit (c / 16) ∷ upper_digit (c % 16) ∷ []

-- `sha256` is Sum256.
unfoldable pub cert_fingerprint : (Text → Text) → Text → Text
cert_fingerprint sha256 der = join (map upper_pair (sha256 der)) (lit ":")

pub data ClientAuth : Type 0 where
  -- the default of a tls.Config, and VerifyClientCertIfGiven
  no_client_cert verify_if_given : ClientAuth

-- A tls.Config: a certificate with its key, and the pools that clients and servers are verified
-- against, each as the PEM text that it was made from.
pub record TlsConfig (P : Type 0) : Type 0 where
  pub certificate : P
  pub client_cas : Option Text
  pub root_cas : Option Text
  pub client_auth : ClientAuth
  -- the least version, TLS 1.2
  pub min_version : ℕ

-- `key_pair` is X509KeyPair of the two files, and `accepts` AppendCertsFromPEM.
module _ {P : Type 0} (key_pair : Text → Text → Option P) (accepts : Text → Bool) where
  unfoldable pub ca_pool : Files → Option Text
  ca_pool files = do pem ← lookup ca_cert_file files; if accepts pem then some pem else none

  unfoldable pub load_pair : Files → Option P
  load_pair files = do cert ← lookup cert_file files; key ← lookup key_file files; key_pair cert key

  unfoldable pub server_tls_config : Files → Option (TlsConfig P)
  server_tls_config files = do
    cert ← load_pair files
    pool ← ca_pool files
    some (record {
      certificate = cert;
      client_cas = some pool;
      root_cas = none;
      client_auth = ClientAuth.verify_if_given;
      min_version = 0x0303;
    })

  unfoldable pub client_tls_config : Files → Option (TlsConfig P)
  client_tls_config files = do
    cert ← load_pair files
    pool ← ca_pool files
    some (record {
      certificate = cert;
      client_cas = none;
      root_cas = some pool;
      client_auth = ClientAuth.no_client_cert;
      min_version = 0x0303;
    })

-- How a subcommand ends: the files, what it tells, and its exit status.
pub data Told : Type 0 where
  nothing usage failed initialised : Told
  -- the hosts, and the fingerprint where the certificate can be read
  served : List Text → Option Text → Told
  -- the name and its ticket
  ticket : Text → Text → Told

pub record Ended : Type 0 where
  pub files : Files
  pub told : Told
  pub status : ℕ

unfoldable pub ended_well : Told → Files → Ended
ended_well told files = record { files = files; told = told; status = 0 }

unfoldable pub ended_badly : Told → Files → Ended
ended_badly told files = record { files = files; told = told; status = 1 }

unfoldable pub report : Told → Files × Bool → Ended
report told (files, true) = ended_well told files
report told (files, false) = ended_badly Told.failed files

-- cert.Raw is the DER that the certificate was parsed from.
unfoldable pub raw_of : Crypto → Files → Option Text
raw_of c files = elim (load_cert c cert_file files) [
  | none ↦ none
  | some cert ↦ do b ← lookup cert_file files; c.pem_decode b
]

unfoldable pub report_server : Crypto → (Text → Text) → List Text → Files × Bool → Ended
report_server c sha256 hosts (files, false) = ended_badly Told.failed files
report_server c sha256 hosts (files, true) = elim (raw_of c files) [
  | none ↦ ended_well (Told.served hosts none) files
  | some der ↦ ended_well (Told.served hosts (some (cert_fingerprint sha256 der))) files
]

unfoldable pub pki_server_command : Crypto → (Text → Text) → Time → List Text → Files → Ended
pki_server_command c sha256 now [] files = ended_badly Told.usage files
pki_server_command c sha256 now (h ∷ hs) files =
    report_server c sha256 (h ∷ hs) (pki_server c now h hs files)

unfoldable pub pki_ticket_command : Crypto → List Text → Files → Ended
pki_ticket_command c args files =
    let cn = flag_value args (lit "--cn") in
    if is_empty cn then ended_badly Told.usage files else elim (load_ticket_salt files) [
      | none ↦ ended_badly Told.failed files
      | some salt ↦ ended_well (Told.ticket cn (ticket_for c salt cn)) files
    ]

unfoldable pub run_pki : Crypto → (Text → Text) → Time → List Text → Files → Ended
run_pki c sha256 now [] files = ended_badly Told.usage files
run_pki c sha256 now (command ∷ args) files =
    if text_eq command (lit "init")
    then report Told.initialised (pki_init c now files)
    else if text_eq command (lit "server")
    then pki_server_command c sha256 now args files
    else if text_eq command (lit "ticket")
    then pki_ticket_command c args files
    else ended_badly Told.usage files
