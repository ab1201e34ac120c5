-- ===== src/Startup.antt =====
-- main.go: how a node comes up. A test of the environment is a Boolean or a text; what the system and
-- the packages json, rand and bcrypt give is an argument.
pub mod Resume
pub mod Access
pub mod Policy
pub mod Commands
pub mod Setup
pub mod Serve
pub mod Recovery
use plv.Prelude.{
  ℕ, Bool, true, false, not, ◌&&◌, ◌||◌, ltb, leb, if◌then◌else◌, List, [], ◌∷◌, Option, none, some,
}
use plv.Go.Text.{Text, lit, is_empty, elem, to_lower, trim_space, text_eq}
use plv.Go.Time.{Env}
use plv.Go.Time.Parse.{◌>>=◌}
use plv.Go.Net.{Network}
use plv.PostfixConf.{PostfixConf, signature}
use plv.Store.{Store, set_ready}
use plv.Store.Add.{Work}
use plv.Forward.{ForwardState}
use plv.Watch.{Watcher, new_watcher}
use plv.Web.{AuthConfig}
use plv.Logs.{LogDir, active_rspamd_log, size_of, parse_all_logs, parse_all_rspamd}

unfoldable pub is_truthy : Text → Bool
is_truthy s = elem (to_lower (trim_space s)) (lit "1" ∷ lit "true" ∷ lit "yes" ∷ lit "on" ∷ [])

unfoldable pub data_dir : Text → Text
data_dir d = if is_empty d then lit "/data" else d

-- The argument is what json makes of the file; it is none where the file cannot be read.
unfoldable pub load_forward_state : Option ForwardState → ForwardState
load_forward_state none = record { mail = 0; rspamd = 0 }
load_forward_state (some st) = st

-- What loadOrCreateAuth finds: the user and the hash of auth.json, if it decodes; MkdirAll; the
-- hash of a new password, if rand and bcrypt give one; and the success of writing it.
pub record AuthFile : Type 0 where
  pub stored : Option (Text × Text)
  pub mkdir : Bool
  pub new_hash : Option Text
  pub write : Bool

unfoldable pub auth_config : Text → Text → AuthConfig
auth_config username hash = record { enabled = true; username = username; password_hash = hash }

unfoldable pub create_auth : AuthFile → Option AuthConfig
create_auth f = elim f.new_hash [
  | none ↦ none
  | some hash ↦ if f.mkdir && f.write then some (auth_config (lit "admin") hash) else none
]

unfoldable pub stored_auth : Option (Text × Text) → Option AuthConfig
stored_auth none = none
stored_auth (some (username, hash)) =
    if is_empty username || is_empty hash then none else some (auth_config username hash)

unfoldable pub load_or_create_auth : AuthFile → Option AuthConfig
load_or_create_auth f = elim (stored_auth f.stored) [ none ↦ create_auth f | some a ↦ some a ]

-- The two variables, AUTH_DISABLE, the role, and the data directory.
unfoldable pub resolve_auth : Text → Text → Text → Bool → AuthFile → Option AuthConfig
resolve_auth username hash disable receiver f =
    if not (is_empty username) && not (is_empty hash)
    then some (auth_config username hash)
    else if is_truthy disable
    then none
    else if not receiver
    then none
    else load_or_create_auth f

-- One round of watchPostfixConf: the signature of the last set, and what is handed on.
unfoldable pub apply_conf : (Network → Text) → Option PostfixConf → Text → Text × Option PostfixConf
apply_conf show none last = (last, none)
apply_conf show (some pc) last =
    if text_eq (signature show pc) last then (last, none) else (signature show pc, some pc)

-- The checkpoint is still valid: the log holds at least its bytes.
unfoldable pub resumes : Option ForwardState → Option (ℕ × Bool) → Bool
resumes none info = false
resumes (some st) none = false
resumes (some st) (some (size, is_dir)) = ltb 0 st.mail && leb st.mail size

pub record Started : Type 0 where
  pub work : Work
  pub mail : Watcher
  -- the offset of the scanner's log, where there is one
  pub rspamd : Option ℕ

unfoldable pub started : LogDir → Work → ℕ → ℕ → Started
started d (s, up) mail_off rspamd_off = record {
  work = (set_ready s, up);
  mail = new_watcher mail_off;
  rspamd = if is_empty (active_rspamd_log d) then none else some rspamd_off;
}

-- All logs are read.
unfoldable pub parse_history :
    Env → (Text → Option Text) → LogDir → (Text → Text → Text) → Work → Option Started
parse_history env decode d join w = do
  found ← parse_all_logs env decode d w
  some (
      started d (parse_all_rspamd d join found.0) found.1
        (if is_empty (active_rspamd_log d) then 0 else size_of (d.stat (active_rspamd_log d))))

unfoldable pub resume_at : LogDir → Option ForwardState → Work → Started
resume_at d none w = started d w 0 0
resume_at d (some st) w = started d w st.mail st.rspamd

unfoldable pub bring_up_parsing :
    Env
    → (Text → Option Text)
    → LogDir
    → (Text → Text → Text)
    → Option ForwardState
    → Work
    → Option Started
bring_up_parsing env decode d join resume w =
    if resumes resume (d.stat (d.within (lit "mail.log")))
    then some (resume_at d resume w)
    else parse_history env decode d join w
