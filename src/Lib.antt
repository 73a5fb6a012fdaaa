-- ===== src/Lib.antt =====
-- strfry-namecoin-policy: a write-policy plugin of the strfry relay. It accepts an event if its
-- author's Namecoin identifier, looked up on ElectrumX servers, names the author's key, and if a rules
-- document (kind 34551) permits the event.
--
-- The parts and their files:
--   Prelude.antt, Prelude/    signed integers over the native numbers, Boolean tests, list lemmas.
--   Js.antt, Js/Json.antt     the JavaScript that the source uses: strings as lists of UTF-16 code
--                             units, trim, toLowerCase, parseInt, Number, the values of JSON.parse
--                             and their conversions.
--   Store.antt                a JavaScript Map with text keys, in the order of insertion.
--   Script.antt, Script/      src/electrumx.js: pushData, readPushData, buildNameIndexScript,
--                             electrumScriptHash, parseNameScript.
--   History.antt, History/    src/electrumx.js: parseNameFromTx, selectNameRowFromHistory,
--                             runResolve and the cached chain tip. `run_resolve` uses the scripts of
--                             Script.antt for the key of the history and to read transactions.
--   Circuit.antt, Circuit/    src/circuit.js: HostBreaker (pickNext, recordSuccess, recordFailure).
--   Cache.antt, Cache/        src/cache.js: LRUCache, over Store.antt.
--   Resolver.antt, Resolver/  src/resolver.js: parseIdentifier, extractFromValue, resolve over the
--                             cache of Cache.antt; what the rate limiter and nameShow answer are
--                             arguments.
--   Rules.antt, Rules/        src/nip9a-parser.js: parseRulesEvent, pickActiveRules;
--                             Rules/Validator.antt is src/nip9a-validator.js (policyFor,
--                             ruleForKind, validate), Rules/Loader.antt is src/nip9a-loader.js
--                             (the constructor, offer, _loadFromFile).
--   Client.antt, Client/      src/electrumx.js: nameShow with its retries, over the breaker of Circuit.antt
--                             and the lookup of History.antt; Client/Pins.antt is parseCertPins and
--                             verifyCertPins, Client/Pool.antt the calls of PooledConnection.
--   RateLimit.antt, RateLimit/ src/ratelimit.js: TokenBucket (_refill, tryAcquire, acquire).
--   PersistentCache.antt, PersistentCache/  src/persistent-cache.js: PersistentLRU with the JSONL
--                             backend. PersistentCache/Coding.antt is a concrete coding of values,
--                             in place of JSON's, for the tests.
--   Config.antt, Config/      src/config.js: the parsers, and loadConfig in Config/Load.antt.
--   Socks5.antt, Socks5/      src/socks5.js: connectSocks5, one function call for each event.
--   Handler.antt, Handler/    src/index.js: the handler that makeHandler builds, extractNip05,
--                             hasImetaTag, isWhitelisted. It calls `resolve` of Resolver.antt,
--                             `offer` and the active document of Rules/Loader.antt, `validate` of
--                             Rules/Validator.antt, and keeps the verified authors in Cache.antt.
--
-- How code becomes definitions. An object with methods is a record, and a method a function from
-- the record before to the record after and the result. Every call of the clock is an argument. A
-- promise is awaited where the source awaits it, so that a reply is a value: `none` where the call
-- throws. A throw is a constructor of the result. Byte strings are lists of numbers below 256. The
-- loops are structural recursion on the lists they run over, so that no fuel is needed, but for two:
-- the attempts of nameShow count down from `retries + 1`, and the rounds of acquire from
-- `queue_ms / 5 + 2`, which is enough since each round sleeps for 5 ms at least.
--
-- Parameters. `Runtime` holds what the language runtime does beyond ASCII (lower case of code units
-- from 128 on, UTF-8 decoding, Number of texts that are no decimal integers) and SHA-256;
-- `JsonRuntime` is JSON.parse and JSON.stringify, of which `IsFaithful` says that the one reads what the
-- other wrote, and that this has no line feed; `Base64` is Node's coding; `Env` is the environment;
-- `Network` and `Clock` are the connections and the clock; `Server` is the replies of one ElectrumX server.
--
-- Simplifications. JSON numbers are integers, as the heights, kinds and times of the protocols are.
-- The time of a rules document is read as a number when it is parsed; the source keeps the value of
-- the event, and would compare two times that are both texts as texts. The ids of two rules
-- documents that are arrays or objects count as different. Lower case is taken one code unit at a
-- time. One call of resolve ends before the next begins.
--
-- Not modelled: the sockets and TLS of src/electrumx.js, the map of its pooled connections and
-- their idle timers; the SQLite backend of src/persistent-cache.js, which is that of an optional package,
-- and errors of the file system; the messages and run() of src/index.js; src/connect.js and
-- src/metrics.js.
pub mod Cache
pub mod Circuit
pub mod Client
pub mod Config
pub mod Handler
pub mod History
pub mod Js
pub mod PersistentCache
pub mod Prelude
pub mod RateLimit
pub mod Resolver
pub mod Rules
pub mod Script
pub mod Socks5
pub mod Store
