-- ===== src/Lib.antt =====
-- PLV, a viewer of Postfix mail logs: what it reads out of the logs, how it keeps and merges the
-- records, and what its pages show.
--
-- The program. parser.go turns log lines into records, one for each queue id and one for each
-- rejection that has none; direction.go and postfixconf.go say which way a message went; rspamd.go
-- reads verdicts of the spam scanner. store.go keeps the records in memory with two indexes, merges
-- the two legs of a filtered message, and answers the queries of the web page: the table, the
-- statistics, the suggestions and the detail view. Lines reach the parser from the log files
-- (watcher.go), and records reach the store from the parser, the database (db.go) or another
-- instance that forwards them (forward.go to ingest.go, with certificates of pki.go). handlers.go
-- serves the web page behind a login, and main.go brings a node up.
--
-- Files.
--   Prelude, Prelude/*    shared names, Boolean tests and lemmas on lists
--   Go/*                  Go's strings, maps, sort.SliceStable, regexp, utf8, net and time, as far as
--                         the program uses them
--   Records               store.go: Record
--   Parser/Patterns       the regular expressions of parser.go, rspamd.go and direction.go
--   Parser/Extract        the extract functions of parser.go
--   Parser/Disposition    deriveDisposition, isStatusDisposition, deliversLocal
--   Parser/Verdict        filterVerdict and its functions, sortRawByTime
--   Parser/NoQueue        parseNoQueueReject and syntheticID
--   Parser/Lines          parseLines
--   Parser/Timeline       theorems on sortRawByTime
--   PostfixConf           postfixconf.go: PostfixConf and its queries
--   PostfixConf/MainCf, Tokens, Load
--                         main.cf, the tokens and tables of domains and networks, loadPostfixConf
--   PostfixConf/Sound     theorems on loadPostfixConf
--   PostfixConf/Wire      payload and toConf: a configuration on its way to the receiver
--   Forward               forward.go: Forwarder, Enqueue, SetConf and the parts of Run
--   Forward/Request       forward.go: the reply that send gets, saveCheckpoint
--   Forward/Steps         Run among its callers, the clock and the network, as a step relation
--   Forward/Delivery, Progress
--                         theorems on the runs
--   Watch                 watcher.go: Watcher, tick, processLine, finalize, flushStale
--   Watch/Bytes, Tail, Flush, Groups, Held, Finished
--                         theorems on the live tail
--   Watch/Scanner         rspamd.go: parseRspamdFile and the live tail; Watch/Scans has its theorems
--   Rspamd                rspamd.go: parseRspamdLine and the enrichment of records
--   Store                 store.go: Store, its indexes and its small operations
--   Store/Merge, Add      mergeDeliveryLeg, mergeRecord, AddRecords, registerDelivery
--   Store/Ingest          LoadFromDB, IngestSnapshots, restoreDeliveryLink
--   Store/Verdicts        ApplyRspamdVerdict and PruneRspamdPending
--   Store/Purge           PurgeOlderThan, on the records in memory
--   Store/Confs           SetPostfixConfForOrigin and ServerConfs
--   Store/Index, Lines, Settle, Total, Retention
--                         the store's invariant, and theorems on AddRecords and PurgeOlderThan
--   Store/Resend, Rows, Meeting
--                         theorems on IngestSnapshots, and on the order of verdict and record
--   Database              db.go: the batches, the transactions, the arguments and the rows
--   Database/Laws         what PostgreSQL documents of the calls
--   Database/Query        buildSearchQuery, and what its text depends on
--   Database/Views, Atomic, Upsert, Keys, Loaded
--                         theorems on UpsertRecords and on LoadFromDB
--   Database/Restart      LoadFromDB and PurgeOlderThan with the database; a store that starts again
--   Detail                store.go: GetDetail; Detail/Pairs, Found have its theorems
--   Direction/*           direction.go; the pass of GetDetail in store.go, and their agreement
--   Search/*              Search of store.go: filters, rows, order and pages
--   Stats/*               Stats, Suggest, topN and sortedHourly of store.go
--   Web                   handlers.go: the routes, the middleware, login and logout
--   Web/Session, History  SessionStore, and what it implements
--   Web/Message, Query, Api
--                         requests and replies, their parameters, the handlers that read the store
--   Web/Identity          buildmeta.go
--   Web/Guard, Tables     theorems on who is served what, and on the table
--   Pki                   pki.go: the CA, certificates, tickets; Pki/Tls has the configurations of TLS
--                         and the subcommands
--   Wizard                wizard.go; Wizard/Ready has its theorems
--   Receiver              ingest.go: handleIngest and handleEnroll
--   Receiver/Journey      send of forward.go, and a forwarder's run with the receiver behind it
--   Receiver/Node         enrollNode of forward.go
--   Receiver/Origins, Delivery, Enrolment, Admission
--                         theorems on what a client can change, what it is told, who gets a certificate
--   Loggen, Loggen/Data   tools/loggen: the pools of data, and what is drawn from them
--   Loggen/Draft, Message tools/loggen: the lines of a message
--   Loggen/Run            tools/loggen: the days, the messages and the files of a run
--   Loggen/Weights        a theorem on the weighted draws
--   Logs                  parser.go and rspamd.go: the log files and their order; theorems in Loading
--   Startup               main.go: bringUpParsing, resolveAuth, a round of watchPostfixConf
--   Startup/Commands      main.go: the subcommands, runEnroll, and the choice of a node's role
--   Startup/Policy        main.go: RETENTION_DAYS, with a theorem on its overflow
--   Startup/Serve         main.go: the two halves of main, up to the signal that it waits for
--   Startup/Recovery      a theorem on a node that starts again with its database
--   Startup/Setup         a theorem on the wizard and the role of the node it set up
--   Startup/Resume, Access
--                         theorems on the start, and on the web server of a receiver
--   Tests/*               samples, witnesses and runs
--
-- State. A record of the model is the struct of the source, field by field. A store is a record of
-- its maps and slices, and an operation takes it and returns the new one; the mutex is not modelled,
-- since every operation holds it from the read of the state to the last write. What the source hands
-- to the database or to a forwarder, the snapshots, is a list beside the store. A read or a slice out
-- of range, which panics in Go, returns none. A slice shared between two records is a value in each.
--
-- Texts are lists of bytes. Upper and lower case and white space are those of ASCII. Times are
-- nanoseconds since the zero time of Go, year 1 in UTC, and earlier instants do not occur; the time
-- zone of the machine and the present instant are arguments. The hours of the statistics are in UTC.
-- A Go map is an association list with one entry for a key; where the source goes through a map, the
-- model follows the order in which the keys came in; the source sorts the result afterwards, except in
-- flushStale, which takes the groups in any order. The decoder of MIME words, a package of Go, is an argument, and so are the printer and the reader of
-- networks, and the files where a configuration is loaded.
--
-- The forwarder is a world of its state, the mode of its loop, the clock and a history; a step is one
-- part of the loop between two points where others can run. An append to the queue and its wake-up are
-- one step, and so are the reads of the two offsets. A request succeeds, fails, or reaches the
-- receiver while its reply is lost.
--
-- The web server is its configuration, its sessions and the store; a handler gives the new state and
-- the reply, whose JSON is left as the value that it encodes. A path is the one that ServeMux has
-- cleaned. bcrypt, random bytes, the embedded files, certificates, signatures and PEM are arguments, and
-- so is what the operating system answers about files, whether a write succeeds included; an error is
-- kept as a status or as none, without its text. What one call of the program gets of them, its random
-- values included, is one value, and two calls have two. The body of a request is what its decoder gives, none
-- where it fails. The offsets of a batch are a map of integers at the receiver, and the two that exist
-- at the forwarder. What handleIngest does to the store with a batch is one step.
--
-- Fuel. A regular expression's repetition runs on the length of the text that is left, which is
-- enough, since each round takes a byte at least. Paging works on int64 with its wrap-around.
--
-- The database is a parameter: the states of the connection, the calls of package sql on them, and the
-- rows that are committed and that the open transaction sees, with what PostgreSQL documents of each
-- call. A call may fail at any point, and the reply of a commit may be lost. TIMESTAMPTZ keeps an
-- instant to its own precision, another parameter. A nil slice of lines and an empty one are the same.
-- The loop over batches has the number of records as fuel, which is enough, since a batch takes one at
-- least.
--
-- The wizard's terminal is the list of the typed lines. For the log generator the source of random numbers
-- is a state with IntN and Float64, and the arithmetic of float64 and the calendar are arguments; a format
-- string is the one of the source, and its arguments are texts.
--
-- Not modelled: the HTTP client of the forwarder (forward.go), the interleaving
-- of the goroutines that main starts while a node comes up (main.go), the printed text of the commands, the
-- schema of the database, log messages, the summary that tools/loggen prints, and the HTML of web/.
pub mod Prelude
pub mod Go
pub mod Records
pub mod Parser
pub mod PostfixConf
pub mod Rspamd
pub mod Store
pub mod Direction
pub mod Search
pub mod Stats
pub mod Database
pub mod Detail
pub mod Forward
pub mod Watch
pub mod Web
pub mod Wizard
pub mod Pki
pub mod Receiver
pub mod Loggen
pub mod Logs
pub mod Startup
mod Tests
