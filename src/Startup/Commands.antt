-- ===== src/Startup/Commands.antt =====
-- main.go: the subcommands of the program, runEnroll and runHashCommand, and which role a node takes.
use plv.Prelude.{Bool, false, not, ◌&&◌, ◌||◌, if◌then◌else◌, List, [], ◌∷◌, Option, none, some}
use plv.Go.Text.{Text, lit, is_empty, text_eq, elem}
use plv.Pki.{Crypto, Files, pki_ready}
use plv.Receiver.Node.{enroll_node}
use plv.Wizard.{Reach}

pub data Command : Type 0 where
  hash : List Text → Command
  version : Command
  pki : List Text → Command
  enroll : List Text → Command
  wizard : Command
  -- the node itself, with its flags
  serve : List Text → Command

-- os.Args[1:]
unfoldable pub command_of : List Text → Command
command_of [] = Command.serve []
command_of (name ∷ args) =
    if text_eq name (lit "hash")
    then Command.hash args
    else if elem name (lit "version" ∷ lit "-version" ∷ lit "--version" ∷ [])
    then Command.version
    else if text_eq name (lit "pki")
    then Command.pki args
    else if text_eq name (lit "enroll")
    then Command.enroll args
    else if text_eq name (lit "wizard")
    then Command.wizard
    else Command.serve (name ∷ args)

-- The values of the four flags of `plv enroll`.
pub record EnrollFlags : Type 0 where
  pub to : Text
  pub cn : Text
  pub ticket : Text
  pub ca : Text

unfoldable pub enroll_with : Crypto → Reach → EnrollFlags → Option Text → Files → Files × Bool
enroll_with c net f none files = (files, false)
enroll_with c net f (some ca_pem) files =
    enroll_node c (net.is_pool ca_pem) (net.post f.to) f.cn f.ticket ca_pem files

-- The files afterwards, and whether it ended without an error.
unfoldable pub run_enroll : Crypto → Reach → EnrollFlags → Files → Files × Bool
run_enroll c net f files =
    if is_empty f.to || is_empty f.cn || is_empty f.ticket || is_empty f.ca
    then (files, false)
    else enroll_with c net f (net.read_file f.ca) files

-- The arguments behind `hash`, and bcrypt: the hash that is printed, none for an error.
unfoldable pub run_hash_command : (Text → Option Text) → List Text → Option Text
run_hash_command bcrypt [] = none
run_hash_command bcrypt (password ∷ args) = bcrypt password

pub data Role : Type 0 where
  forwarder : Text → Role
  receiver : Text → Role
  standalone : Role

unfoldable pub role : Text → Text → Role
role forward_to ingest_addr =
    if not (is_empty forward_to)
    then Role.forwarder forward_to
    else if not (is_empty ingest_addr)
    then Role.receiver ingest_addr
    else Role.standalone

-- PLV_FORWARD_TO and PLV_INGEST_ADDR; none is the fatal error of both. Without its certificates a node
-- falls back to standing alone.
unfoldable pub role_of : Text → Text → Files → Option Role
role_of forward_to ingest_addr files =
    if not (is_empty forward_to) && not (is_empty ingest_addr)
    then none
    else if (not (is_empty forward_to) || not (is_empty ingest_addr)) && not (pki_ready files)
    then some (role [] [])
    else some (role forward_to ingest_addr)
