-- ===== src/Lib.antt =====
-- A verification library for dflybot: an IRC and Telegram bot, its URL shortener and its
-- monitors.
--
-- What is modelled is the core of the URL shortener (urlshort/), the bot's database of the nicks
-- that it has seen (seen.go) and its !opme command (irc.go), and the monitors of web sites
-- (web-monitor/), of git repositories (git-monitor/), of GitHub (github-monitor/), Jenkins
-- (jenkins-monitor/) and Redmine (redmine-monitor/), which post what they find. The shortener is a
-- REST service that maps targets (URLs) to short keys. A request is authenticated (Auth), a rule
-- chooses a key for a new target (Rules), and the link is written to a bbolt database of two
-- buckets (Store). The handlers (Api) put these together. A monitor polls, keeps a state between
-- its polls, and may shorten the links of its posts by the shortener's batch handler (Shortener).
--
-- - Prelude: the libraries' names, Boolean tests, lists by native numbers, and Go strings as
--   lists of bytes (Prelude/Bytes) with `==`, strings.HasPrefix and the byte order of bbolt's
--   keys.
-- - Store: urlshort/store.go and urlshort/store_bbolt.go. Store/Bolt is the interface of a bbolt
--   bucket, since bbolt is not part of the repository: its operations and their documented
--   behaviour are the fields of `Bucket`, and Store/Bolt/Memory is a bucket that meets them.
--   Store/Link has the types, the JSON of a link and the transaction `update_tx` (DB.Update: the
--   writes stay if the function returns no error and the commit succeeds; whether it does is an
--   argument). Store/Create, Store/Change and Store/Read are the methods: create_in_tx, create,
--   create_batch, update, delete, resolve, get, list, count_prefix, count are createInTx, Create,
--   CreateBatch, Update, Delete, Resolve, Get, List, CountPrefix, Count. Time is an argument, in
--   nanoseconds.
-- - Auth: urlshort/auth.go. new_authenticator, authenticate, can_access, first_namespace are
--   NewAuthenticator, Authenticate, CanAccess, FirstNamespace; SHA-256 is a parameter.
-- - Rules: urlshort/rules.go. Rules/Key is ValidateKey, Rules/Match NewRuleset and Match,
--   Rules/Generate Render and GenerateKey, Rules/Random randomID and GenerateRandomKey. A
--   compiled regular expression and a parsed template are the functions that the code calls on
--   them, and the bytes of crypto/rand are a list of reads.
-- - Api: urlshort/api.go and urlshort/redirect.go, from the decoded request on. Api/Target is
--   canonicalizeTarget, Api/Prepare prepareCreate, Api/Links the handlers of one link
--   (create_link, update_link, delete_link, get_link_handler are createLink, updateLink,
--   deleteLink, getLink), Api/Batch handleLinksBatch, Api/Listing listLinks and listFiltered,
--   Api/Dispatch handleAPI with requireMethod and authenticate, whose rate limiters' answers are
--   arguments, Api/Redirect handleRedirect. A handler maps the database to an `Outcome`: status,
--   body, note for the access log, error for the status state, and the database that it leaves.
--   net/url is a parameter (`UrlLib`), and so is the outcome of decoding the JSON body
--   (`Decoded`). Requests run one after the other.
-- - Limiter: RateLimiter of urlshort/server.go; allow is Allow, over the table of buckets by key,
--   and golang.org/x/time/rate is a parameter.
-- - WebMonitor: web-monitor/monitor.go. update_state, update_cert, poll are updateState, updateCert
--   and poll, polls is the loop of monitor/monitor.go, load_state is loadState and fmt_downtime
--   fmtDowntime; status_ok is makeStatusCheck of web-monitor/probe.go. The results of the probes
--   and their times are arguments.
-- - GitMonitor: git-monitor/monitor.go. seed_state, collect_announcements are seedState and
--   collectAnnouncements, list_refs, rev_list, get_commit_info, is_merge_commit, commit_of are
--   listRefs, revList, getCommitInfo, isMergeCommit, derefTagToCommit, over what the commands of
--   git print (`Git`, one for each poll). GitMonitor/Send is sendAnnouncements with resolveLinks,
--   formatCommit and sanitize. The maps are association lists in the order of their keys
--   (Prelude/Sorted), the order in which the code goes through them.
-- - Feed: what the monitors of GitHub and Redmine do alike, after github-monitor/monitor.go: the
--   watermark of a feed (accept, advance for the loops of poll), the batches of the posts
--   (announce_batches for announce), shortenURLs, and snippet (Feed/Snippet).
-- - GithubMonitor: github-monitor/monitor.go and github-monitor/github.go. classify, line, announce
--   are the functions of these names, GithubMonitor/Fetch is fetchEvents over the answers to its
--   requests, and GithubMonitor/Poll is poll with loadState; run is a sequence of polls.
-- - JenkinsMonitor: jenkins-monitor/monitor.go. JenkinsMonitor/Builds is pollJob with
--   collapseCurrent and processBuild, JenkinsMonitor/Nodes pollNodes, JenkinsMonitor/Queue
--   pollQueue, and JenkinsMonitor/Poll is poll and a monitor's life, with its state file, through
--   restarts and crashes. Posts and history lines are effects; announce gives a post's text.
-- - RedmineMonitor: redmine-monitor/atom.go and redmine-monitor/monitor.go. parse_title, is_creation,
--   issue_url are parseTitle, isCreation, issueURL; RedmineMonitor/Activities is classify and
--   remember, RedmineMonitor/Poll poll with seed and handleAnubis. Regular expressions, numbers
--   and HTML are parameters.
-- - History: History of monitor/monitor.go, the buffered file of what the monitors saw. Append, Flush
--   and Close are events between their uses of the lock, and `run` is an interleaving of them.
-- - Shortener: the client of the URL shortener in monitor/urlshort.go. shorten_batch is
--   ShortenBatch, by requests to the batch handler of Api, whose answers are a parameter;
--   GitMonitor/Send has it as its shortener.
-- - OpMe: the !opme command of the bot, handleOpMe of irc.go, as handle_op_me, with its cache.
-- - TtlCache: ttlcache/ttlcache.go. add, set, get, pop, delete are the methods of these names, and
--   clean is a round of the loop of that name.
-- - Maintenance: urlshort/maintenance.go. list_backups, cleanup are listBackups and cleanup, and
--   record_file is the last file that record names.
-- - Seen: seen.go, the database of the bot's !seen command. join, leave, message, quit, rename, get
--   are the methods of SeenStore, over records by channel and nick; seen_lookup is Lookup, and
--   seen_age the age in seenTimeText. strings.EqualFold and strings.ToLower are parameters. The
--   model goes through a map in the order of its keys.
--
-- Errors: Store/Error has the sentinels that errors.Is tells apart and one constructor for each
-- other message; the texts are not modelled.
--
-- Bounds: two loops of the code have no bound of their own. randomID waits for bytes below 248.
-- The model takes the list of reads and answers `none` where they run out; as long as the list
-- holds enough accepted bytes it does not. The outer loop of listFiltered, which ends because
-- List moves the cursor, has one call of List more than there are entries as its fuel, and that
-- is enough. All other loops are recursions on their lists or counters; the one of ShortenBatch has
-- as many rounds as there are targets, since each round takes one at least, fetchEvents counts its
-- ten pages, and the loop of snippet has as many rounds as the text has bytes, since each drops one
-- at least.
--
-- Not modelled: the rest of the HTTP layer (status, listeners, host checks), configuration, TLS and
-- logging of urlshort/, and the backups but for their retention; the bot but for !opme and its seen
-- database, and that database's files; the limit of 64 KB for the body of a request to the API, and
-- the replacement of invalid UTF-8 by encoding/json; the pool of items that the caches share; the
-- HTTP requests of the monitors and the decoding of their answers; CompactTo, Stats, OpenBoltStore
-- and verifyBoltFile of the store; probing a site, cloning a repository, and reading and writing
-- the state files of the monitors.
pub mod Prelude
pub mod Api
pub mod Auth
pub mod Feed
pub mod GitMonitor
pub mod GithubMonitor
pub mod History
pub mod JenkinsMonitor
pub mod Limiter
pub mod Maintenance
pub mod OpMe
pub mod RedmineMonitor
pub mod Rules
pub mod Seen
pub mod Shortener
pub mod Store
pub mod TtlCache
pub mod WebMonitor
