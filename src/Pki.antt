-- ===== src/Pki.antt =====
-- pki.go: the certificates and tickets of the distributed mode. The data directory is a map from file
-- names to contents; what comes from Go's crypto packages and from the operating system is the record
-- Crypto. An error is a false, or none, without its text.
pub mod Tls
use plv.Prelude.{
  ◌+◌, ◌*◌, ◌-◌, Bool, true, false, not, ◌&&◌, ◌||◌, if◌then◌else◌, List, [], ◌∷◌, ◌++◌, Option,
  none, some,
}
use plv.Go.Text.{Text, lit, text_eq, trim_space, has_prefix, trim_prefix}
use plv.Go.Map.{Map, lookup}
use plv.Go.Strconv.{hex_encode, hex_decode}
use plv.Go.Time.{Time, hour}
use plv.Go.Time.Parse.{◌>>=◌}
use plv.Go.Net.{Ip, parse_ip}

abbrev pub Files : Type 0
Files = Map Text

pub data Usage : Type 0 where
  cert_sign crl_sign digital_signature server_auth client_auth : Usage

-- The fields of an x509.Certificate that the code sets.
pub record Certificate : Type 0 where
  pub serial : Text
  pub common_name : Text
  pub not_before : Time
  pub not_after : Time
  pub is_ca : Bool
  pub usage : List Usage
  pub ip_addresses : List Ip
  pub dns_names : List Text

-- A certificate request, and whether CheckSignature finds it signed by its own key.
pub record CertificateRequest : Type 0 where
  pub common_name : Text
  pub public_key : Text
  pub is_signed : Bool

-- What one call of the program's functions gets: two calls, such as those that make the CA and a node's
-- certificate, have two values, with random values of their own.
pub record Crypto : Type 0 where
  -- HMAC-SHA256 of a key and a message
  pub hmac : Text → Text → Text
  -- what crypto/rand gives for the next key, serial number and salt, or its error
  pub new_key : Option Text
  pub new_serial : Option Text
  pub new_salt : Option Text
  pub public_of : Text → Text
  pub marshal_key : Text → Option Text
  pub parse_key : Text → Option Text
  -- a PEM block: its type and its bytes
  pub pem_encode : Text → Text → Text
  pub pem_decode : Text → Option Text
  pub parse_certificate : Text → Option Certificate
  pub parse_request : Text → Option CertificateRequest
  pub create_request : Text → Text → Option Text
  -- of a template, the parent, the subject's public key and the parent's key
  pub create_certificate : Certificate → Certificate → Text → Text → Option Text
  -- MkdirAll of the data directory, and WriteFile in it: the files afterwards and the success
  pub mkdir : Bool
  pub write : Text → Text → Files → Files × Bool

abbrev pub ca_cert_file : Text
ca_cert_file = lit "ca.pem"

abbrev pub ca_key_file : Text
ca_key_file = lit "ca-key.pem"

abbrev pub cert_file : Text
cert_file = lit "cert.pem"

abbrev pub key_file : Text
key_file = lit "key.pem"

abbrev pub salt_file : Text
salt_file = lit "ticket-salt"

unfoldable pub ca_validity : Time
ca_validity = 10 * (365 * (24 * hour))

unfoldable pub leaf_validity : Time
leaf_validity = 5 * (365 * (24 * hour))

unfoldable pub file_exists : Text → Files → Bool
file_exists name files = elim (lookup name files) [ none ↦ false | some t ↦ true ]

-- The data directory holds what both roles need.
unfoldable pub pki_ready : Files → Bool
pki_ready files =
    file_exists ca_cert_file files && file_exists cert_file files && file_exists key_file files

-- A write that happens only where all before it succeeded.
unfoldable pub and_write : Crypto → Text → Text → Files × Bool → Files × Bool
and_write c name content (files, false) = (files, false)
and_write c name content (files, true) = c.write name content files

unfoldable pub write_cert : Crypto → Text → Text → Files × Bool → Files × Bool
write_cert c name der = and_write c name (c.pem_encode (lit "CERTIFICATE") der)

unfoldable pub write_key : Crypto → Text → Text → Files × Bool → Files × Bool
write_key c name key (files, done) = elim (c.marshal_key key) [
  | none ↦ (files, false)
  | some b ↦ and_write c name (c.pem_encode (lit "EC PRIVATE KEY") b) (files, done)
]

unfoldable pub load_cert : Crypto → Text → Files → Option Certificate
load_cert c name files = do b ← lookup name files; der ← c.pem_decode b; c.parse_certificate der

unfoldable pub load_key : Crypto → Text → Files → Option Text
load_key c name files = do b ← lookup name files; der ← c.pem_decode b; c.parse_key der

unfoldable pub load_ca : Crypto → Files → Option (Certificate × Text)
load_ca c files = do
  cert ← load_cert c ca_cert_file files
  key ← load_key c ca_key_file files
  some (cert, key)

-- A clock before the first hour of the model's time cannot occur: it counts from the year 1.
unfoldable pub ca_template : Time → Text → Certificate
ca_template now serial = record {
  serial = serial;
  common_name = lit "PLV CA";
  not_before = now - hour;
  not_after = now + ca_validity;
  is_ca = true;
  usage = Usage.cert_sign ∷ Usage.crl_sign ∷ [];
  ip_addresses = [];
  dns_names = [];
}

unfoldable pub write_salt : Crypto → Files × Bool → Files × Bool
write_salt c (files, false) = (files, false)
write_salt c (files, true) = elim c.new_salt [
  | none ↦ (files, false)
  | some salt ↦ c.write salt_file (hex_encode salt) files
]

-- The key and the certificate of a new CA.
unfoldable pub new_ca : Crypto → Time → Option (Text × Text)
new_ca c now = do
  key ← c.new_key
  serial ← c.new_serial
  der ← c.create_certificate (ca_template now serial) (ca_template now serial) (c.public_of key) key
  some (key, der)

-- The files afterwards, and whether there was no error.
unfoldable pub pki_init : Crypto → Time → Files → Files × Bool
pki_init c now files =
    if file_exists ca_cert_file files || not c.mkdir then (files, false) else elim (new_ca c now) [
      | none ↦ (files, false)
      | some made ↦
          write_salt c
            (write_key c ca_key_file made.0 (write_cert c ca_cert_file made.1 (files, true)))
    ]

unfoldable pub add_host : Text → Certificate → Certificate
add_host h cert = elim (parse_ip h) [
  | none ↦ record cert { dns_names = cert.dns_names ++ h ∷ [] }
  | some ip ↦ record cert { ip_addresses = cert.ip_addresses ++ ip ∷ [] }
]

unfoldable pub add_hosts : List Text → Certificate → Certificate
add_hosts [] cert = cert
add_hosts (h ∷ hs) cert = add_hosts hs (add_host h cert)

unfoldable pub leaf_template : Time → Text → Text → Usage → Certificate
leaf_template now serial cn usage = record {
  serial = serial;
  common_name = cn;
  not_before = now - hour;
  not_after = now + leaf_validity;
  is_ca = false;
  usage = Usage.digital_signature ∷ usage ∷ [];
  ip_addresses = [];
  dns_names = [];
}

-- The key and the certificate of the server `host`, whose other names are `hosts`.
unfoldable pub new_server : Crypto → Time → Text → List Text → Files → Option (Text × Text)
new_server c now host hosts files = do
  ca ← load_ca c files
  key ← c.new_key
  serial ← c.new_serial
  der ←
      c.create_certificate
        (add_hosts (host ∷ hosts) (leaf_template now serial host Usage.server_auth)) ca.0
        (c.public_of key) ca.1
  some (key, der)

unfoldable pub pki_server : Crypto → Time → Text → List Text → Files → Files × Bool
pki_server c now host hosts files = elim (new_server c now host hosts files) [
  | none ↦ (files, false)
  | some made ↦ write_key c key_file made.0 (write_cert c cert_file made.1 (files, true))
]

-- The request and the private key, both as PEM.
unfoldable pub generate_csr : Crypto → Text → Option (Text × Text)
generate_csr c cn = do
  key ← c.new_key
  der ← c.create_request cn key
  b ← c.marshal_key key
  some (c.pem_encode (lit "CERTIFICATE REQUEST") der, c.pem_encode (lit "EC PRIVATE KEY") b)

unfoldable pub check_request : CertificateRequest → Text → Option CertificateRequest
check_request csr cn = if csr.is_signed && text_eq csr.common_name cn then some csr else none

unfoldable pub sign_csr : Crypto → Time → Files → Text → Text → Option Text
sign_csr c now files csr_pem cn = do
  ca ← load_ca c files
  b ← c.pem_decode csr_pem
  parsed ← c.parse_request b
  csr ← check_request parsed cn
  serial ← c.new_serial
  der ←
      c.create_certificate (leaf_template now serial cn Usage.client_auth) ca.0 csr.public_key ca.1
  some (c.pem_encode (lit "CERTIFICATE") der)

unfoldable pub load_ticket_salt : Files → Option Text
load_ticket_salt files = do b ← lookup salt_file files; hex_decode (trim_space b)

unfoldable pub ticket_for : Crypto → Text → Text → Text
ticket_for c salt cn = hex_encode (c.hmac salt cn)

-- hmac.Equal compares bytes, in constant time.
unfoldable pub valid_ticket : Crypto → Text → Text → Text → Bool
valid_ticket c salt cn ticket = text_eq (ticket_for c salt cn) ticket

unfoldable pub flag_value : List Text → Text → Text
flag_value [] name = []
flag_value (a ∷ []) name =
    if has_prefix a (name ++ lit "=") then trim_prefix a (name ++ lit "=") else []
flag_value (a ∷ b ∷ args) name =
    let rest = flag_value (b ∷ args) name in
    if text_eq a name
    then b
    else if has_prefix a (name ++ lit "=")
    then trim_prefix a (name ++ lit "=")
    else rest
