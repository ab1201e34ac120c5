-- ===== src/Tests/Starts.antt =====
-- A node that comes up over a small log directory.
use plv.Prelude.{◌≡◌, refl, true, false, [], ◌∷◌, Option, none, some, ◌⊎◌}
use plv.Go.Text.{Text, lit, elem, trim_space, to_lower, text_eq}
use plv.Forward.{ForwardState}
use plv.Logs.{LogDir}
use plv.Startup.{Started, AuthFile, resumes, is_truthy, resolve_auth, bring_up_parsing}
use plv.Startup.Resume.{IsUp, IsParsed, IsResumed, bring_up_parsing-IsUp}
use plv.Startup.Access.{resolve_auth-Blind}
use plv.Web.Session.{is_valid}
use plv.Go.Map.{lookup}
use plv.Web.{Site, has_session}
use plv.Web.Guard.{Blind}
use plv.Tests.Samples.{env, line1, line2, empty_store, empty_store-IsIndexed}
use plv.Tests.Webs.{outside, guarded_site, late_request}

abbrev no_decoding : Text → Option Text
no_decoding t = none

abbrev pub logs : LogDir
logs = record {
  within = λ name. name;
  dir = λ path. [];
  base = λ path. path;
  glob = λ pattern. lit "mail.log" ∷ [];
  sort = λ less names. names;
  scan = λ path. some (line1 ∷ line2 ∷ [], true);
  stat = λ path. some (200, false);
}

abbrev joined : Text → Text → Text
joined a b = b

abbrev stale : Option ForwardState
stale = some (record { mail = 300; rspamd = 0 })

bring_up_parsing-IsUp_example :
    (x : Started) × (bring_up_parsing env no_decoding logs joined stale (empty_store, []) ≡ some x)
    × IsUp empty_store x
    × (((resumes stale (logs.stat (logs.within (lit "mail.log"))) ≡ false)
          × IsParsed env no_decoding logs x)
        ⊎ IsResumed logs stale empty_store [] x)
bring_up_parsing-IsUp_example =
    bring_up_parsing-IsUp env no_decoding logs joined stale empty_store [] empty_store-IsIndexed

abbrev scanner_log : Text
scanner_log =
    lit
      "2026-06-30 06:12:00 #9(normal) <a1b2>; task; rspamd_task_write_log: id: <m1@x>, qid: <AAAAAAAAAA>, from: <u@x>, (default: F (no action): [1.20/15.00] [X(0.10){}])"

abbrev new_node : AuthFile
new_node = record { stored = none; mkdir = true; new_hash = some (lit "h"); write = true }

-- The site of a receiver that has no variables set.
abbrev fresh_site : Site
fresh_site = record guarded_site { auth = resolve_auth [] [] [] true new_node; sessions = [] }

not_disabled : is_truthy [] ≡ false
unfolding is_truthy trim_space to_lower elem lit text_eq
not_disabled = refl

no_session : has_session outside fresh_site late_request ≡ false
unfolding has_session is_valid lookup
no_session = refl

resolve_auth-Blind_example : Blind outside fresh_site late_request
resolve_auth-Blind_example =
    resolve_auth-Blind outside fresh_site late_request [] [] [] new_node (lit "h") not_disabled refl
      refl refl refl no_session
