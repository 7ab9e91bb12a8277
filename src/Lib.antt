-- ===== src/Lib.antt =====
-- Dependency Guardian: a proxy between package managers and their registries that serves only the
-- versions that a policy allows.
--
-- A request reaches the proxy (internal/proxy), which finds the ecosystem and hands the request to its
-- handler (internal/handler). The handler applies the rewrite rules (internal/rewrite, which compares
-- versions with internal/vercmp), fetches from the upstream (internal/handler/upstream), and asks for a
-- verdict on each version: EvaluateVersion reads the vulnerabilities (internal/vulndb), evaluates the
-- Rego policy (internal/policy) and records the decision in the log that the editor extension reads
-- (internal/decisions).
--
-- Files and the code that they model:
--   Decisions          internal/decisions/log.go: the log as a record, one function per method
--   Vercmp             internal/vercmp/vercmp.go: ParsedVersion, parsing, Format and the comparisons
--   Rewrite            internal/rewrite/rewrite.go and the rule types of internal/config/config.go;
--                      Rewrite/Glob is filepath.Match of Go's library
--   Registry, Json     internal/registry, and the values that encoding/json makes
--   Vulndb/Models      internal/vulndb/models/models.go: the rows of the database; Vulndb/Columns its JSON
--                      columns
--   Vulndb/Parser      internal/vulndb/osvparser/parser.go: rows made of OSV records
--   Vulndb/Index       internal/vulndb/dal/store.go: severities, index entries, the rebuild, the queries
--   Vulndb/Matching    internal/vulndb/osvdb.go: GetVulnerabilities and the range match
--   Vulndb/Gorm, Store internal/vulndb/dal/store.go: the upsert, the deletions, sync states and metrics
--   Vulndb/Sync        internal/vulndb/sync/syncer.go: downloads, the feed, the delta, the archive and
--                      the pool of workers, and scheduler.go beside it, as steps of concurrent parts
--   Policy             internal/policy/engine.go: loading, reloading and evaluating policies
--   Http               internal/handler/upstream/upstream.go, and requests and responses of net/http
--   Handler            internal/handler/handler.go; Handler/Gomod is internal/handler/gomod/handler.go
--   Handler/Recording  the decision log across the handlers
--   Handler/Npm        internal/handler/npm/handler.go: the routes and the filtering of metadata
--   Handler/Pypi       internal/handler/pypi/handler.go, which shares Handler/Filtering with npm
--   Handler/Maven      internal/handler/maven/pom.go: properties, ancestors and dependencies of a POM;
--                      Handler/Maven/Metadata is handler.go beside it
--   Proxy              internal/proxy/server.go: detection, the guard of the reload, the lookup;
--                      Proxy/Routes is the route table, Proxy/Server the handler of each route
--   Config             internal/config/config.go: settings, defaults, loading and validation
--   Guardian           cmd/guardian/main.go: the configuration and the server that main starts
--   Prelude            shared helpers: lists, texts, integers, decimals, maps and paths
--   Samples, Examples  concrete instances on which the examples run
--
-- State and errors. A method that changes an object is a function from the object to the object; the
-- log, the policy engine and the tables of the database are passed on explicitly. A Go error is `none`.
-- The mutex of the log and the lock of the engine make each method atomic, so concurrent use is a
-- sequence of calls. A transaction that fails leaves the tables as they were.
--
-- Numbers. Go's int and int64 are 64-bit integers that wrap around; lengths and places in a slice are
-- natural numbers. A Go map is an association list in which the first pair of a key counts.
-- The loops go over lists and texts. Two counters are the program's own: a chain of at most ten parent
-- POMs, and five rounds of replacing references in a version. A download is tried four times. The
-- batches of an upsert are cut with as many rounds as there are vulnerabilities, which is enough for a
-- positive size.
--
-- Parameters. The version libraries (VersionLibs), OPA (Opa), the database (Database, with the laws
-- IsTable of its queries), the network (Network), the JSON codec of a constraint, the coder of
-- JSON documents with the order in which a map is visited (Documents), that of XML (XmlCodec), the
-- statements of GORM by table (Gorm, with the laws IsSql, which leave open whether the database enforces
-- the cascades that the models declare), the network over time (Web), the reader of zip archives
-- (Archives), files with the YAML decoder (Files), and the clock are arguments, with what is relied on
-- as named hypotheses.
--
-- Texts. A Go string is a text of Unicode characters, searched and cut at ASCII characters only. Lower
-- case and case folding are exact where the result meets ASCII words, as everywhere in the program. A
-- bufio.Scanner stops at a line that does not fit its buffer of 65536 bytes. A JSON number stands as
-- its literal, since the program reads none.
--
-- Not modelled: opening the database, listening and shutting down, requests with the method CONNECT or
-- with escapes in their path, logging, and the JSON text of the replies.
pub mod Prelude
pub mod Decisions
pub mod Vercmp
pub mod Rewrite
pub mod Config
pub mod Json
pub mod Registry
pub mod Vulndb
pub mod Policy
pub mod Http
pub mod Handler
pub mod Proxy
pub mod Guardian
pub mod Samples
