-- ===== src/Wizard.antt =====
-- wizard.go: the interactive setup of a node. The terminal is the list of the lines that are typed, and
-- a run gives the files of the data directory and whether it ended without an error; what is printed is
-- left out. `c` of a call is what Go's packages give during it.
pub mod Ready
use plv.Prelude.{Bool, true, false, if◌then◌else◌, List, [], ◌∷◌, Option, none, some}
use plv.Go.Text.{Text, lit, is_empty, elem, to_lower, trim_space, split_byte}
use plv.Go.Time.{Time}
use plv.Pki.{Crypto, Files, ca_cert_file, file_exists, pki_init, pki_server}
use plv.Receiver.{EnrollRequest, Reply}
use plv.Receiver.Node.{enroll_node}

-- The answer, and the lines that are left; past the end of the input every line is empty.
unfoldable pub prompt : Text → List Text → Text × List Text
prompt default [] = (default, [])
prompt default (line ∷ rest) =
    let answer = trim_space line in (if is_empty answer then default else answer, rest)

unfoldable pub trimmed_hosts : List Text → List Text
trimmed_hosts [] = []
trimmed_hosts (h ∷ hs) =
    let rest = trimmed_hosts hs in if is_empty (trim_space h) then rest else trim_space h ∷ rest

unfoldable pub init_ca : Crypto → Time → Files → Files × Bool
init_ca c now files = if file_exists ca_cert_file files then (files, true) else pki_init c now files

unfoldable pub issue_server : Crypto → Time → List Text → Files × Bool → Files × Bool
issue_server c now hosts (files, false) = (files, false)
issue_server c now [] (files, true) = (files, false)
issue_server c now (h ∷ hs) (files, true) = pki_server c now h hs files

-- The port is only printed. `c1` and `c2` are those of pkiInit and of pkiServer.
unfoldable pub wizard_receiver : Crypto → Crypto → Time → List Text → Files → Files × Bool
wizard_receiver c1 c2 now input files =
    issue_server c2 now (trimmed_hosts (split_byte b',' (prompt [] input).0)) (init_ca c1 now files)

-- What a forwarder asks of its surroundings: a file by its path, whether its content is a certificate,
-- and the request to a receiver's /enroll.
pub record Reach : Type 0 where
  pub read_file : Text → Option Text
  pub is_pool : Text → Bool
  pub post : Text → EnrollRequest → Option Reply

unfoldable pub ask_ticket : Crypto → Reach → Text → Text → List Text → Files → Files × Bool
ask_ticket c net to ca_pem input files =
    let (cn, input1) = prompt [] input in
    let (ticket, input2) = prompt [] input1 in
    if is_empty cn
    then (files, false)
    else if is_empty ticket
    then (files, false)
    else enroll_node c (net.is_pool ca_pem) (net.post to) cn ticket ca_pem files

unfoldable pub with_ca : Crypto → Reach → Text → Option Text → List Text → Files → Files × Bool
with_ca c net to none input files = (files, false)
with_ca c net to (some ca_pem) input files = ask_ticket c net to ca_pem input files

unfoldable pub wizard_forwarder : Crypto → Reach → List Text → Files → Files × Bool
wizard_forwarder c net input files =
    let (to, input1) = prompt [] input in
    let (ca_path, input2) = prompt [] input1 in
    if is_empty to
    then (files, false)
    else if is_empty ca_path
    then (files, false)
    else with_ca c net to (net.read_file ca_path) input2 files

unfoldable pub run_wizard : Crypto → Crypto → Time → Reach → List Text → Files → Files × Bool
run_wizard c1 c2 now net input files =
    let (role, rest) = prompt [] input in
    if elem (to_lower role) (lit "r" ∷ lit "receiver" ∷ [])
    then wizard_receiver c1 c2 now rest files
    else if elem (to_lower role) (lit "f" ∷ lit "forwarder" ∷ [])
    then wizard_forwarder c1 net rest files
    else (files, false)
