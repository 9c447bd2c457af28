-- ===== src/Lib.antt =====
-- A model of oxidized-wall, a reverse proxy with a web application firewall, and proofs of what its
-- parts do.
--
-- `main` loads the configuration, starts a server for each address and, until the shutdown signal,
-- reloads certificates when their files change. The servers share a semaphore of connections.
--
-- A request reaches the proxy over a connection whose peer is not banned. `verify_request` counts
-- it against the rate of its client's address, checks the protocol, the sizes and the method and
-- inspects the head; a failed check is answered with an error and punished with a ban. A request
-- that passes is routed by its host and the longest path prefix, and one of the healthy upstreams
-- is chosen in turn. The response's headers are sanitized, its text is masked and its bytes are
-- metered by a token bucket.
--
--   Base       characters, bytes, lists, results, time and addresses
--   Dict       `HashMap` as an association list, `DashMap` as an interface with its laws
--   Config     src/config.rs: the records; Load is `Config::load`, with what it loads in
--              Load.Content; Certs is `CertResolver` and `reload_certs`
--   Ban        src/ban.rs: `BanManager`; Spec says when an address is banned
--   RateLimit  src/ratelimit.rs: `RateLimiter::check` and its cleanup
--   Bandwidth  src/bandwidth.rs: `TokenBucket`, `BandwidthLimiter`; Body is `ThrottledBody`
--   Health     src/health.rs: the list of upstreams and one round of the checker
--   Http       the types of hyper and http, as an interface with the laws of header maps
--   Protocol   src/protocol.rs
--   Waf        src/waf/mod.rs; Core, Dlp, File, Path and Structure are the files beside it,
--              Uploads is about the bodies of uploads
--   Proxy      src/proxy.rs: the helpers on headers; Verify is `verify_request`, with the requests
--              that pass in Limits and sequences of requests in Sessions; Balance is
--              `select_upstream`, Routes the choice of a route and the sorting of src/config.rs;
--              Upstream is `handle_http`, `handle_websocket` and the bodies that are admitted;
--              Handlers is `http_proxy` and `https_proxy` with the choice of the upstream: Loaded
--              and Probed are about that choice together with Config and with Health, Sent about
--              the requests to the upstreams, Redirect about `http_proxy`; WebSocket is the copying
--              loops of `handle_websocket`
--   Server     src/server.rs: the accept loops and their tasks as a step relation; System is all
--              servers over one semaphore, Shutdown what happens after the signal
--   Main       src/main.rs: the start of the program; Watcher is the callback of the file watcher
--              with the reloads that it spawns
--   Tests      concrete instances of the interfaces, runs, and each theorem at concrete data
--
-- State is passed explicitly: an operation takes the manager it works on and returns it. Each
-- reading of the clock is an argument, in nanoseconds. A panic is `none`. The `u32` of the rate
-- limiter and the `usize` of the load balancer wrap as in a release build. No definition runs on
-- fuel: the loops are structural recursion, and `select_upstream` counts down the rounds that its
-- range has left.
--
-- Parameters stand for the libraries that the source calls: `DashMap`, header maps and URIs, the
-- regular expressions, the Aho-Corasick matcher, the Unicode tables, `f64` and `f32`, the parser of
-- addresses, the inner body of a throttled one and the outcomes of TCP probes. What is assumed of
-- them stands in the records Dict.Shared.DashMap, Http, Waf.Dlp.Regex, Waf.Path.Matcher,
-- Waf.Structure.Unicode and Bandwidth.Float; Tests.Instances has an instance of each.
--
-- The handlers take what the network gives from the record Proxy.Upstream.Network.
--
-- The parsers of TOML and PEM, the keys of ring and the resolver of rustls are the record
-- Config.Load.Tls, the disk is Config.Load.Disk, and addresses, binding, the watcher and the
-- largest semaphore are Main.Platform. The scheduler, the clients and the other tasks choose the steps of Server.Move,
-- Main.Watcher.Change and Proxy.WebSocket.Turn.
--
-- Not modelled: log messages, the wakers and size hints of bodies, the timing of the background
-- tasks (each round of theirs is an operation), and what tokio, hyper and rustls do inside.
pub mod Base
pub mod Dict
pub mod Config
pub mod Ban
pub mod RateLimit
pub mod Bandwidth
pub mod Health
pub mod Http
pub mod Protocol
pub mod Waf
pub mod Proxy
pub mod Server
pub mod Main
pub mod Tests
