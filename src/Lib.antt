-- ===== src/Lib.antt =====
-- The Hub agent for Kubernetes: the parts of it that decide something, and what they guarantee.
--
-- The agent runs in a cluster next to Traefik. It scrapes the metrics of the proxy and sends them to
-- the platform (pkg/metrics), checks alert rules on them (pkg/alerting), keeps tunnels to the broker
-- of the platform (pkg/tunnel), and answers the proxy's requests for access control (pkg/acp), whose
-- policies test the claims of a token (pkg/acp/expr); and it brings the edge ingresses of the platform
-- into the cluster (pkg/edgeingress).
--
-- The files, and the code they model:
--   * Expr and its children: pkg/acp/expr. `Expr` has the claims of a token as data, the resolution
--     of a claim's name and its splitting (`split`, `resolve` of parser.go); Expr/Predicates the
--     predicates and combinators, Expr/Pluck the claims that become headers (pluck.go). `Parse` is
--     not modelled: it is the package vulcand/predicate.
--   * Metrics/Points, Metrics/Sets: pkg/metrics/aggregator.go and the metrics of scraper.go.
--   * Metrics/Parser: pkg/metrics/parser.go. The messages of Prometheus are records of what it reads.
--   * Metrics/Store: pkg/metrics/store.go. Each method is a function on the state `Store`; Rows,
--     Cleanup, Marks, RollUp and Start hold what is shown about them.
--   * Metrics/Manager: `send` of pkg/metrics/manager.go, with the insertions of the scraper between
--     the snapshot and the answer of the platform as an argument. An error of the client is taken to
--     mean that the platform has not taken the points. Metrics/Manager/Scraper is `startScraper`.
--   * Metrics/View: pkg/metrics/view.go, which the alerts query the store with.
--   * Alerting: pkg/alerting/types.go and processors.go; Alerting/Manager: manager.go.
--   * Tunnel: pkg/tunnel/manager.go, as functions on the state `Manager` and a step relation `Step`
--     in which updates, connections, ends of goroutines and the stop come in any order.
--   * Acp/Token, Acp/ApiKey, Acp/BasicAuth: pkg/acp/token, pkg/acp/apikey and pkg/acp/basicauth.
--   * Acp/Oidc: pkg/acp/oidc. Cookie is the session store of cookie.go, Settings config.go, Handler,
--     Login and Serving the handler of oidc.go with the redirection, the callback and `ServeHTTP`.
--   * Acp/Jwt: pkg/acp/jwt. KeySets is jwk.go, Settings and Handler are jwt.go.
--   * Acp/OauthIntro: pkg/acp/oauthintro. Acp/Responses is what the handlers share.
--   * EdgeIngress: pkg/edgeingress. Watcher has the calls to the platform and the API server, which
--     an oracle answers, and the secrets and ingresses; Sync and Certificates the two
--     synchronisations of watcher.go.
--   * Prelude, Strings, Int64: Go's `==`, maps, lists, panics, `strings`, runes and `int64`.
--
-- Go's `int64` is a bit pattern with its wrap-around (Int64), `float64` a parameter (`Floats`). A
-- panic is a value (`Run`). A map is an association list, so that what is shown for every list holds
-- for every order of `range`; where the order shows in a state or in calls, for the buckets that the
-- roll-up appends and the edge ingresses that are deleted, it is an argument. `guessEdgeIngress` ranges
-- over the ingresses in one order for all metrics of a scrape. A mutex makes each method one step. Loops are structural on a list
-- or a text; `chunkBytes` and the printing of numbers take as fuel the number of bytes and the number
-- itself, of which each round takes one at least.
--
-- Parameters stand for what is not in the repository: hashes, gzip, `net/url`, the headers of
-- `net/http`, the passwords of goauth, block ciphers, base64, JSON, the packages golang-jwt and
-- go-jose, the identity provider, and the answers of the platform. Not modelled are HTTP
-- clients and servers, the Kubernetes informers, the generated clients, the tickers, and the parts
-- of the agent that are only wired together: pkg/platform, pkg/crd, pkg/topology, pkg/api,
-- pkg/acp/admission, cmd/agent.
pub mod Prelude
pub mod Strings
pub mod Int64
pub mod Expr
pub mod Metrics
pub mod Alerting
pub mod Tunnel
pub mod Acp
pub mod EdgeIngress
