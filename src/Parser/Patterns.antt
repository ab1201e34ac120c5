-- ===== src/Parser/Patterns.antt =====
-- The regular expressions of parser.go, rspamd.go and direction.go. Group numbers are Go's.
use plv.Prelude.{ℕ, Bool, not, ◌&&◌, ◌||◌, ◌==◌, leb}
use plv.Go.Text.{lit}
use plv.Go.Regexp.{
  Pattern, one, ◌⋅◌, or_else, text, star, lazy_star, plus, optional, times, up_to, group, at_start,
  is_digit, is_alpha, is_hex, is_word, is_blank, is_any, among, except, word_edge,
}

-- [a-zA-Z0-9\-_.]
is_host : ℕ → Bool
is_host c = is_alpha c || is_digit c || among (lit "-_.") c

-- [ip], the address as group i
abbrev bracketed : ℕ → Pattern
bracketed i = text (lit "[") ⋅ group i (star (one (except (lit "]")))) ⋅ text (lit "]")

-- queueIDRe
unfoldable pub queue_id_re : Pattern
queue_id_re =
    text (lit "postfix/")
    ⋅ plus (one (except (lit "]")))
    ⋅ text (lit "]:")
    ⋅ star (one is_blank)
    ⋅ group 1 (times 10 (one is_hex) ⋅ up_to 2 (one is_hex))
    ⋅ text (lit ":")

abbrev angle : ℕ → Pattern
angle i = text (lit "<") ⋅ group i (star (one (except (lit ">")))) ⋅ text (lit ">")

-- reTo
unfoldable pub re_to : Pattern
re_to =
    or_else
      (text (lit "to=")
        ⋅ angle 1
        ⋅ text (lit ",")
        ⋅ star (one is_any)
        ⋅ text (lit "orig_to=")
        ⋅ angle 2)
      (text (lit "to=") ⋅ angle 3)

is_from : ℕ → Bool
is_from c = is_alpha c || is_digit c || among (lit "-+_.") c

-- reFrom
unfoldable pub re_from : Pattern
unfolding is_from
re_from =
    text (lit "from=<")
    ⋅ group 1 (plus (one (λ c. is_from c || c == b'=')) ⋅ text (lit "@") ⋅ plus (one is_from))
    ⋅ text (lit ">")

-- reSubject
unfoldable pub re_subject : Pattern
re_subject =
    text (lit "header")
    ⋅ one is_blank
    ⋅ text (lit "Subject:")
    ⋅ one is_blank
    ⋅ group 1 (lazy_star (one is_any))
    ⋅ one is_blank
    ⋅ text (lit "from")
    ⋅ one is_blank
    ⋅ plus (one (λ c. not (is_blank c || among (lit "[;") c)))
    ⋅ one (among (lit ";["))

-- reSize
unfoldable pub re_size : Pattern
re_size = text (lit "size=") ⋅ group 1 (plus (one is_digit)) ⋅ text (lit ",")

-- reMessageID
unfoldable pub re_message_id : Pattern
re_message_id = text (lit "message-id=") ⋅ angle 1

-- reStatus
unfoldable pub re_status : Pattern
unfolding is_host
re_status =
    or_else
      (text (lit "status=")
        ⋅ group 1 (plus (one is_host))
        ⋅ one is_blank
        ⋅ group 2 (text (lit "(") ⋅ star (one (except (lit ")"))) ⋅ text (lit ")")))
      (group 3 (text (lit "reject"))
        ⋅ text (lit ":")
        ⋅ one is_blank
        ⋅ star (one (except (lit ":")))
        ⋅ text (lit ":")
        ⋅ one is_blank
        ⋅ group 4 (one is_digit ⋅ star (one (except (lit ";"))))
        ⋅ text (lit ";")
        ⋅ one is_blank)

-- reRelay
unfoldable pub re_relay : Pattern
unfolding is_host
re_relay =
    or_else (text (lit "relay")) (text (lit "connect to"))
    ⋅ one is_any
    ⋅ group 1 (plus (one is_host))
    ⋅ bracketed 2
    ⋅ text (lit ":")
    ⋅ group 3 (plus (one is_digit))

-- reClient
unfoldable pub re_client : Pattern
unfolding is_host
re_client = text (lit "client=") ⋅ optional (group 1 (plus (one is_host))) ⋅ bracketed 2

-- reOrigClient
unfoldable pub re_orig_client : Pattern
unfolding is_host
re_orig_client = text (lit "orig_client=") ⋅ optional (group 1 (plus (one is_host))) ⋅ bracketed 2

-- reConnect
unfoldable pub re_connect : Pattern
unfolding is_host
re_connect =
    text (lit "connect from ")
    ⋅ group 1 (plus (one is_host))
    ⋅ text (lit "[")
    ⋅ group 2 (plus (one (except (lit "]"))))
    ⋅ text (lit "]")

-- reTLS
unfoldable pub re_tls : Pattern
re_tls =
    text (lit "Trusted TLS connection established to ")
    ⋅ group 1 (plus (one (except (lit "["))))
    ⋅ text (lit "[")
    ⋅ group 2 (plus (one (except (lit "]"))))
    ⋅ text (lit "]:")
    ⋅ group 3 (plus (one is_digit))

-- reTimestamp
unfoldable pub re_timestamp : Pattern
re_timestamp =
    at_start
    ⋅ group 1 (
        times 4 (one is_digit)
        ⋅ text (lit "-")
        ⋅ times 2 (one is_digit)
        ⋅ text (lit "-")
        ⋅ times 2 (one is_digit)
        ⋅ text (lit "T")
        ⋅ plus (one (λ c. not (is_blank c))))

abbrev hh_mm_ss : Pattern
hh_mm_ss =
    times 2 (one is_digit)
    ⋅ text (lit ":")
    ⋅ times 2 (one is_digit)
    ⋅ text (lit ":")
    ⋅ times 2 (one is_digit)

-- reBSDStamp
unfoldable pub re_bsd_stamp : Pattern
re_bsd_stamp =
    at_start
    ⋅ group 1 (
        one (λ c. leb b'A' c && leb c b'Z')
        ⋅ times 2 (one (λ c. leb b'a' c && leb c b'z'))
        ⋅ plus (one is_blank)
        ⋅ one is_digit
        ⋅ up_to 1 (one is_digit)
        ⋅ plus (one is_blank)
        ⋅ hh_mm_ss)

-- reFilterTag
unfoldable pub re_filter_tag : Pattern
re_filter_tag =
    text (lit "pmg-smtp-filter[")
    ⋅ plus (one is_digit)
    ⋅ text (lit "]:")
    ⋅ star (one is_blank)
    ⋅ group 1 (times 14 (one is_hex) ⋅ star (one is_hex))
    ⋅ text (lit ":")

-- reFilterHandoff
unfoldable pub re_filter_handoff : Pattern
re_filter_handoff =
    text (lit "status=sent (")
    ⋅ times 3 (one is_digit)
    ⋅ text (lit " ")
    ⋅ plus (one (λ c. is_digit c || c == b'.'))
    ⋅ text (lit " ")
    ⋅ plus (one is_word)
    ⋅ text (lit " (")
    ⋅ group 1 (times 6 (one is_hex) ⋅ star (one is_hex))
    ⋅ text (lit "))")

abbrev is_decimal : ℕ → Bool
is_decimal c = is_digit c || c == b'.'

-- reSAScore
unfoldable pub re_sa_score : Pattern
re_sa_score =
    text (lit "SA score=")
    ⋅ group 1 (plus (one is_decimal))
    ⋅ text (lit "/")
    ⋅ group 2 (plus (one is_decimal))

abbrev rule : ℕ → Pattern
rule i = text (lit " (rule: ") ⋅ group i (plus (one is_any)) ⋅ text (lit ")")

-- reQuarantine
unfoldable pub re_quarantine : Pattern
re_quarantine =
    text (lit "to ")
    ⋅ group 1 (plus (one (λ c. leb b'a' c && leb c b'z')))
    ⋅ text (lit " quarantine - ")
    ⋅ group 2 (plus (one is_hex))
    ⋅ rule 3

-- reAccept
unfoldable pub re_accept : Pattern
re_accept =
    text (lit "accept mail to <")
    ⋅ star (one (except (lit ">")))
    ⋅ text (lit "> (")
    ⋅ group 1 (plus (one is_hex))
    ⋅ text (lit ")")
    ⋅ rule 2

-- reBlock
unfoldable pub re_block : Pattern
re_block =
    text (lit "block mail to <")
    ⋅ star (one (except (lit ">")))
    ⋅ text (lit ">")
    ⋅ optional (rule 1)

-- reNoQueue
unfoldable pub re_no_queue : Pattern
re_no_queue =
    text (lit "NOQUEUE: reject: ")
    ⋅ group 1 (plus (one is_word))
    ⋅ text (lit " from ")
    ⋅ group 2 (lazy_star (one (λ c. not (is_blank c))))
    ⋅ bracketed 3
    ⋅ optional (text (lit ":") ⋅ plus (one is_digit))
    ⋅ text (lit ": ")
    ⋅ group 4 (times 3 (one is_digit) ⋅ star (one (except (lit ";"))))
    ⋅ text (lit ";")

-- reRspamdQID
unfoldable pub re_rspamd_qid : Pattern
re_rspamd_qid =
    text (lit "qid: <") ⋅ group 1 (plus (one (λ c. is_alpha c || is_digit c))) ⋅ text (lit ">")

-- reRspamdID
unfoldable pub re_rspamd_id : Pattern
re_rspamd_id = word_edge ⋅ text (lit "id: ") ⋅ angle 1

-- reRspamdAction
unfoldable pub re_rspamd_action : Pattern
re_rspamd_action =
    text (lit "(default: ")
    ⋅ plus (one (λ c. not (is_blank c)))
    ⋅ text (lit " (")
    ⋅ group 1 (plus (one (λ c. (leb b'a' c && leb c b'z') || c == b' ')))
    ⋅ text (lit "): [")
    ⋅ group 2 (optional (text (lit "-")) ⋅ plus (one is_decimal))
    ⋅ text (lit "/")

-- reRspamdTime
unfoldable pub re_rspamd_time : Pattern
re_rspamd_time =
    at_start
    ⋅ group 1 (
        times 4 (one is_digit)
        ⋅ text (lit "-")
        ⋅ times 2 (one is_digit)
        ⋅ text (lit "-")
        ⋅ times 2 (one is_digit)
        ⋅ text (lit " ")
        ⋅ hh_mm_ss)

-- reBracketIP of direction.go
unfoldable pub re_bracket_ip : Pattern
re_bracket_ip = text (lit "[") ⋅ group 1 (plus (one (except (lit "]")))) ⋅ text (lit "]")
