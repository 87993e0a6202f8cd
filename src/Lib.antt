-- ===== src/Lib.antt =====
-- A model of atlas_exporter, a Prometheus exporter for the measurements of RIPE Atlas.
--
-- Results of measurements come over a stream or by request, each from a probe. A measurement keeps the
-- latest result of each probe, and exports metrics of them when it is scraped.
--
-- The parts, each with its source:
--   Probe          probe/probe.go: the probe, and the labels read from it; Probe/Cache: probe/cache.go
--   Result         the values that the accessors of the ripeatlas library give for a result
--   Exporter       exporter/exporter.go, histogram.go and the validators: the interfaces between a
--                  measurement and the code for its type; Exporter/Laws has the laws of an exporter,
--                  Exporter/Series the series to which the samples belong
--   Exporter/Measurement   exporter/measurement.go: `Add`, `Describe` and `Collect`
--   Ping, Traceroute, Ntp, Dns, Http, Sslcert   the packages of these names: `Export` and `Describe`
--                  in the file itself, `NewMeasurement` and the histogram in its Create, the laws in
--                  its Metrics, the series of its metrics in its Series
--   Config         config/types.go; Config/Validate and Config/Env: config/loader.go; Config/Load:
--                  config/defaults.go, `RegisterFlags` and the sources of `Load`; Config/Arrays:
--                  `normalizeArrays`; Config/Start: `Load` as a whole
--   Probe/Request  probe/probe_request.go: the request for a probe
--   Atlas/Lookup, Atlas/Types      atlas/helper.go: the probes of results, the measurement for a type;
--                  Atlas/Lookup/ErrorBody: what an error of the API leaves in the cache; Atlas/Types/Kept:
--                  the interface by which both strategies keep what `Add` keeps
--   Atlas/Backoff, Atlas/Worker    atlas/stream_strategy_worker.go: the retry delay, and the life of a
--                  worker as steps; Atlas/Worker/Connected interleaves the steps of several workers,
--                  Atlas/Worker/Gauge follows the gauge of each, and Atlas/Worker/Start has `start` of
--                  atlas/stream_strategy.go
--   Atlas/Stream   atlas/stream_strategy.go: what streamed results build up, and the health of it;
--                  its Invariant has what is kept of all its measurements
--   Atlas/Request  atlas/request_strategy.go: measurements that are requested for a scrape; its
--                  Invariant has what is kept of all of them
--   Atlas/CacheTask, Atlas/Metrics   atlas/probe_cache.go, and atlas/metrics.go: the exporter's own
--                  metrics, `SetBuildInfo`
--   Collector      collector.go; Collector/Registration and Collector/Names: the descriptions with which
--                  it is registered; Collector/Series: the series that it sends
--   Server         main.go and helper.go: the handlers, the routes, the choice of the strategy;
--                  Server/Answers: what is written for a request; Server/Registry: all that is
--                  registered for a scrape; Server/Listen: the settings of the server; Server/Start: how
--                  `main` ends; Server/Life: the process as steps; Server/Series: what a scrape sends
--   Prelude        names passed on from the library, Boolean tests, integers, texts, maps, outcomes
--   Tests          runs at concrete inputs
-- A definition has the name of the Go function or variable it stands for, in snake_case.
--
-- How the code is rendered. A method that changes its receiver returns the new one. A panic is the
-- outcome `panic`, an error is `none`. A map is an association list; where Go visits a map, the order
-- is an argument, and theorems hold for every order. Times and random draws are arguments. A text is
-- the list of its bytes, and the names of environment variables are ASCII. A float64 is a value of an
-- abstract type with a comparison and the conversions that the code uses; nothing is assumed of the
-- comparison, but where a hypothesis says so. The int64 of the retry delay wraps around as in Go; other
-- integers are unbounded. Loops over slices are recursion on lists; the only fuel is that of the
-- decimal digits of a number, which is the number itself and so is enough.
--
-- The goroutines of a scrape use the probe cache one after the other, in any order; its deadline is the
-- number of measurements that are received before it. koanf is an interface with the law that what is
-- loaded later wins at keys that the sources do not divide further; a source is the flat keys of its
-- leaves, none of whose names has a dot. The order in which sort.Slice leaves equal indices, and the bounds
-- of `make`, are arguments, and so is what net/http decides of patterns: which can be parsed, and which are
-- in conflict.
-- A scrape collects the measurements as `MeasurementResults` returned them; results that a stream adds
-- to them in between come before or after it.
--
-- Not modelled: what net/http does while the server runs, the handlers of net/http/pprof, the text of
-- errors, and logging, with `getMapKeys`, which only serves a log line.
-- Left out are also panics of the libraries at unusual values: prometheus.NewHistogram for buckets that are
-- not strictly increasing, prometheus.MustNewConstMetric for labels that are not valid UTF-8, and
-- sync.WaitGroup for a worker count that int makes negative or that its counter cannot hold. Where a result
-- says that something ends without a panic, it is where these do not occur.
-- Library calls are parameters: the HTTP request and json.Unmarshal of a probe, the API of measurements,
-- the reading of YAML and the decoding of the configuration, the digest of a certificate, the patterns and
-- the choice of http.ServeMux, and the names that the library's own collectors describe.
-- The capacity of the channel of the stream counts only where it is made; goroutines that stay blocked
-- are left out.
pub mod Prelude
pub mod Float
pub mod Probe
pub mod Result
pub mod Exporter
pub mod Config
pub mod Ping
pub mod Traceroute
pub mod Ntp
pub mod Dns
pub mod Http
pub mod Sslcert
pub mod Atlas
pub mod Collector
pub mod Server
pub mod Tests
