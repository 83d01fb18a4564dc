-- ===== src/Lib.antt =====
-- Verification of ravenguard's core: the parts of the web application firewall that decide, by
-- their own state, whether a request is served. Paths are from the repository's root.
--
-- Parts and files
-- - Common: Go strings as byte lists (Text), maps (Dict) and sharded maps with the FNV-1a hash of
--   internal/strhash (Sharded), times (Time), int64 counters (Int), ASCII text (Ascii), strconv,
--   strings.Split and encoding/hex (Strings), signed 64-bit patterns (Int64).
-- - Protect: internal/protect/protect.go. Config (defaults, UpdateConfig, sizes), Guard (state),
--   Bans (Strike, Banned, BanUntil, Unban, Sweep, the lists), Slots (Acquire, Release), Interleaved
--   (Acquire, Release and the sweep of the client counters by their atomic steps).
-- - RateLimit: internal/ratelimit/ratelimit.go, the token buckets. Floats is the interface of the
--   float64 operations that the buckets use, and a fixed-point instance of it; Bound is about what
--   the buckets let through at most, Restored about when they let a client in again.
-- - Detect: internal/detect. Counter (penalty.go and notfound.go), Behavior (behavior.go), Paths
--   (what the behaviour tracker reads of a path, with two functions of detect.go), Forge (forge.go),
--   RawQuery (rawQueryValue of detect.go), Tables, Requests and Score (the rest of detect.go), Attack
--   (attack.go), with the two functions of package net/url that it calls as parameters, and Crawler
--   (the check of a claimed crawler in crawler.go with its cache, the resolver being a parameter).
-- - Challenge: internal/challenge/challenge.go. Nonces (ConsumeNonce, SweepNonces), Token (Issue,
--   ParseToken), Pow (VerifyPoW, SolvePoW).
-- - ThreatShare: internal/threatshare/overlay.go, the threat entries that the fleet shares, which
--   ban clients at the guard or go to an overlay of blocked keys; Kept follows the entry of a host
--   through later calls of ApplyOne and Sweep.
-- - Logging: internal/logging/ring.go, the circular buffer of log entries (Ring).
-- - Admin: internal/admin. Lockout (auth/lockout.go) and Rbac (rbac/rbac.go).
-- - RequestLog: internal/requestlog/requestlog.go, the hot index of denied requests (Newest says what
--   it is to show, Index, Claim and Recent that it does) and its counters (Counts).
-- - Router: internal/router/router.go, Replace and Lookup with what they call.
-- - Semantic: internal/semantic. Decoders (the four decoders of decode.go with what they call of Go's
--   library), Decode (Budget and DecodeChain), Analyze (analyze.go) and Engine (engine.go); Chain and
--   Candidates are about DecodeChain, Verdict and Reasons about Evaluate.
-- - Faststr: internal/faststr/faststr.go, searches that fold the case of letters.
-- - BodyBuf: internal/bodybuf/bodybuf.go, the part of a body that is read for inspection. A stream is
--   the bytes that are left and whether an error stands behind them.
-- - IpUtil: internal/iputil/iputil.go, the address that a request comes from.
-- - AddressLists: internal/blocklist/blocklist.go and internal/allowlist/allowlist.go. Lines is what
--   both make of the lines of their files.
-- - Agents: internal/agentprotocol/hub.go. Connects (allowConnect), Handshake (HandleConnect up to a
--   session) and Registry (Registry and the end of a session).
-- - Access: internal/access, the rules of a policy (check.go, policy.go) and its cookie (cookie.go).
-- - Pipeline: internal/pipeline/pipeline.go. Steps and Detection hold the parts of guard, in its
--   order, and Serve composes them; Gates, Order, Quiet and Barred are about what is not proxied,
--   Neutral, Kept and Slots about the slot of a request, Banned and Attack about banned clients and
--   attack signatures. Traps holds the honeypot paths, Requests (challenge_ajax.go) what guard asks of
--   the headers, Payloads runSemanticML, and Handler the packages that guard asks: `asked` fills in
--   the facts of a request with the answers of the models of those packages, and Composed is about
--   guard on them. Redirect is about challenge_ajax.go, where a client goes after a challenge.
--
-- The parts meet in guard of internal/pipeline/pipeline.go: a request asks the protect guard for a
-- ban and for a slot, passes the lists, the traps, the WAF and the attack signatures, asks the
-- limiters for tokens, is recorded and scored by the behaviour tracker, and asks the trackers whether
-- its client is over a limit; its response is recorded by the counters of responses. A request over
-- a limit may make the pipeline strike or ban the client. The pipeline calls the models of Protect,
-- RateLimit and Detect; the answers of the other packages are facts of a request there, and Handler
-- takes them from the models of IpUtil, AddressLists, ThreatShare, Router, Access, Semantic and Detect.
--
-- How the code is read
-- - A Go string is a list of bytes, a map an association list seen only through its laws; a shard
--   array is a function from the shard number, with the shard chosen by the FNV-1a hash.
-- - Every operation takes the readings of the clock as arguments. An instant is a number of
--   nanoseconds since Go's zero time, so `IsZero` is a test against 0. Clock readings and durations
--   are not negative; Go's monotonic clock does not go back, and a theorem that needs the order of
--   two readings says so. A difference of instants is saturated as `time.Time.Sub` is.
-- - Configuration numbers are natural numbers: a negative setting takes the same branches as 0.
-- - An operation that holds a lock throughout is one step. In Acquire and Release, which use atomic
--   counters, the steps are run together in Slots; Interleaved runs them in any order.
-- - A sync.Pool is a list of the entries that were put back, of which Get takes the first.
-- - float64 arithmetic is a parameter of the rate limiter. What is proved of amounts and of waiting
--   times assumes that the arithmetic is exact and ordered, which rounding breaks by its error.
-- - The classification of a request path is a parameter of the behaviour tracker, which the pipeline
--   gives it from Forge. A loop over the segments of a path or the keys of a query has the length of
--   its text as fuel, of which every round uses at least one byte.
-- - A request reads one clock throughout guard. A part of guard returns the state after it and, if it
--   answers the request, the outcome; the parts run in the order of the code up to the first that
--   answers, and the slot is released behind them, as the deferred call does.
-- - An int of the path parser is a 64-bit pattern with its wrap-around written out; the counters of
--   the trackers are natural numbers, below 2^63.
-- - net.ParseIP is a parameter of the overlay, which looks addresses up by their text.
-- - Package net is a parameter (Common/Net) of the address lists and of ClientIP; the storage of the
--   tokens, behind the interface TokenLookup, is one of the hub.
-- - The search of faststr.Matcher for one of several texts is a parameter of the scores of a request
--   and of the block list. A file is the list of the lines that a scanner gives of it, or an error.
-- - DecodeChain reads the clock often, so its readings are a function of their number. Its depth is
--   the recursion of the model; a loop over a text has the length of the text as fuel, of which every
--   round uses at least one byte. A confidence of the semantic engine is kept in hundredths.
-- - A session of the hub is a pointer in the code, and has a number in the model.
-- - HMAC-SHA256 and SHA-256 are parameters of the challenges and of the access cookie, argon2id and
--   the address prefixes are parameters of the access rules, and whether a proxy can be built is one
--   of the router. A signed 64-bit integer is its pattern of bits (Common/Int64). SolvePoW tries
--   2^32 solutions, which is its fuel; 20 digits, the fuel of the decimal digits, are enough below 2^64.
-- - strings.ToLower, strings.TrimSpace and strings.EqualFold are modelled on ASCII text.
--
-- Not modelled: the reverse proxy, TLS, the configuration reader, the admin site and its storage,
-- the machine-learning and Coraza engines and the other parts that are input and output; and of
-- the parts with logic of their own, the multi-pattern search (ac.go) and the challenge endpoints.
-- Of the pipeline, the pages, the headers, the events it logs and the gates kept for challenges
-- are left out, and the WAF, the feeds, the schemas, health, Web Bot Auth and clearance are facts
-- of a request there, and the scorer of ml a parameter; of the router, proxies and health
-- checkers. Of the challenges, the clearance cookie, the live settings, the risk cache and the
-- algorithms besides SHA-256 are left out; of the access gates, the forms and the attributes of
-- the cookie; of the threat overlay, Stats; of the log ring, its slog handlers; of the request
-- log, its durable store; of the block list, the files of its overlay directory; of the hub, the
-- messages on a session and its keys.
pub mod Common
pub mod Protect
pub mod RateLimit
pub mod Detect
pub mod Admin
pub mod Challenge
pub mod Pipeline
pub mod ThreatShare
pub mod Logging
pub mod Router
pub mod Semantic
pub mod Faststr
pub mod IpUtil
pub mod AddressLists
pub mod Agents
pub mod BodyBuf
pub mod RequestLog
pub mod Access
