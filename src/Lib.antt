-- ===== src/Lib.antt =====
-- A mirror cache for HTTP artifacts: a client asks for `/<host>/<path>`, the program fetches the
-- target over https, keeps the response in S3 and redirects the client to a presigned URL.
--
-- How the parts work together. `ServeHTTP` (server.go) names the target and the cache key of a
-- request. Requests with one flight key wait for one run of `fetchAndCache`. That looks the entry
-- up, asks the freshness gate (internal/freshness), and else asks upstream with the entry's
-- validators as conditions; the answer is served from the entry, written to the cache, served stale
-- as the fallback policy allows (fallback.go), or relayed as an error. The upstream client's
-- transport (oci_auth.go) answers the token challenges of container registries.
--
-- Which file models what:
--   Base, Go          helpers, and what the program uses of Go's strings, net/http and net/url
--   Errors            internal/errorutil/errors.go and the error types: errors as values
--   Freshness         internal/freshness: Directives, Evaluate (freshness.go), Merge (merge.go)
--   Cache             cache.go: CacheKey, String, cachedEntry
--   S3                s3_cache.go. Key: s3PathFor, escapeCopySource; Api: the S3 client that it
--                     calls; Store: Head, Touch, GetPresignedURL, Put. Metadata: s3_metadata.go
--   Fallback          fallback.go: ShouldFallback
--   Server            server.go and http_caching.go. World: the services that the handler calls;
--                     Target: parseTargetURL, acceptVariantKeyFunc; Validators: upstreamUnchanged,
--                     buildUpstreamRequest; Fetch: fetchAndCache and its methods; Serve: ServeHTTP
--   Oci               oci_auth.go. Challenge: parseOCIAuthChallenge; Repository:
--                     extractOCIRepository; Tokens: tokenCache; Transport/Fetch: getOrFetch,
--                     fetchToken; Transport/Trip: RoundTrip, discoveryPath; Sweeper:
--                     sweepChallenges, sweepLoop, Close
--   Fleet             several instances of the program on one bucket, as a relation of steps
--   Warm              the handler of server.go over the cache of s3_cache.go
--   Process           main.go. Settings: the flags, parseDuration, newUpstreamClient and the first
--                     part of run; Run: getListener, runServer, run, main
--   Reqlog            internal/reqlog. Headers: HeaderAttrs; Writer: statusWriter, Middleware
--   Tests             runs at fixed inputs
-- The other files state what is proved of these.
--
-- State and effects. The handler and the transport run in state monads over the list of the calls
-- made so far, newest first; each answer of the cache, of upstream and of the clock is a function
-- of that whole list, so nothing is assumed of it, not even that it repeats itself. A text is a list
-- of bytes. Times are integers of nanoseconds; durations are int64, with wrap-around in sums and
-- products and saturation in Time.Sub. A header is an association list by canonical name. A
-- response's body is a text: that it is streamed, closed or drained is left out. A reply is the call of net/http
-- that makes it: the text and the Location that http.Redirect makes of a URL are left out.
--
-- Every loop is structural recursion on a text or a list; there is no fuel. The bound on the cap in
-- the theorems on the gate is half the range of an int64 of nanoseconds, 146 years.
--
-- Parameters: the Unicode cases of ToLower, TrimSpace and EqualFold, and ParseTime (`Std`); for the
-- handler, the cache, the HTTP client and the clock (`Services`), and where the cache is that of
-- s3_cache.go, the rest of these (`Outside`); the S3 client (`Api`), with the documented behaviour of
-- the service as laws (`IsS3`): a call is atomic, a write that fails may yet have had its effect, a
-- conditional copy asks for the ETag, and the ETag of an object tells its contents; the registry's
-- answers, url.Parse with the text of its query, http.NewRequest and the JSON decoder (`Network`); the
-- JSON of lists (`Json`); what the set-up and the life of the process call (`Host`, `Sockets`,
-- `Runtime`); http.ResponseWriter, with what net/http documents of the status (`IsHttp`).
--
-- Not modelled: the interleaving of the steps of concurrent requests inside one instance, of flights,
-- and of the transport's sweep with them: the calls of the service by several instances interleave
-- in Fleet, and round trips and sweeps follow one another. The log beyond the decisions of
-- fetchAndCache and the lines of Middleware; the random identifier and the logger in the context
-- (internal/reqlog/reqlog.go); flag parsing, the fixed timeouts of the dialer and the server, and
-- signals, beyond how a run ends; internal/singleflight, a typed wrapper;
-- internal/etagging-server, a server for tests; third_party/smokescreen. Of the arguments of a
-- wrapped error's format, numbers and headers are left out of its text.
pub mod Base
pub mod Go
pub mod Errors
pub mod Freshness
pub mod Cache
pub mod S3
pub mod Fallback
pub mod Server
pub mod Fleet
pub mod Warm
pub mod Process
pub mod Reqlog
pub mod Oci
pub mod Tests
