-- ===== src/Lib.antt =====
-- kubernetes-cost-analyzer: a collector that prices what every container of a cluster reserved or used,
-- a rollup of those facts into days and months, and an API that reports costs and gives advice.
--
-- The parts and how they interact. The collector (cmd/collector) takes the topology from internal/kube and
-- the usage from internal/prom, and internal/costing turns them, at the rates of internal/pricing, into the fact
-- rows of internal/domain, which internal/store/postgres keeps. internal/recommend reads statistics of
-- those rows and produces advice. The handlers of internal/httpapi read a request's parameters, refuse it where
-- currencies would mix, and ask the store.
--
-- Which file models what:
-- - Common: what Go's language and standard library give: 64-bit integers with wrap-around (Word), stable
--   sorting (Sort), maps with string keys (Maps), strings and fmt.Sprintf (Text), strconv.ParseInt
--   (Numerals), a value or an error.
-- - Numeric: github.com/shopspring/decimal and float64, as parameters with laws (Decimal, Float), and the
--   concrete numbers that the tests use (Fixed).
-- - Clock: time.Time and time.Duration in nanoseconds, Truncate and Sub.
-- - Domain: internal/domain. Its root has the types of inventory.go and usage.go; Allocation has the fact
--   row, Billable and Validate; Cluster has DescribeCluster.
-- - Pricing: internal/pricing. Its root has Rates and Cost; Catalogue has the price list, its parsing and
--   LoadCatalogue; Provider has RatesFor. Costs, Loading and Provenance prove.
-- - Prom: internal/prom/prom.go. Its root has the queries, Merging collect and ContainerUsage. Selectors,
--   Samples and Readings prove.
-- - Kube: internal/kube/convert.go, over the fields of Kubernetes objects that it reads. Attribution proves.
-- - Costing: internal/costing. Its root has Window, AlignedWindow and NewEngine; Collect has one cycle.
--   Windows, Coverage, Billing and Interleaving prove.
-- - Recommend: internal/recommend. Its root has the types and ContainerStats of
--   internal/store/postgres/stats_repo.go; Engine has the thresholds and NewEngine; Arithmetic the
--   shared sums; Sizing and Replicas the five rules; Analyse the report. Sanity, Proposals, Savings,
--   Raises, ScaleDown, Ranking, Report and Kinds prove.
-- - Rollup: internal/rollup, with the dates and results of internal/store/postgres/rollup_repo.go and
--   monthly_report_repo.go. Its root has RollupRange and RunMonth; Dates the count of days;
--   Calendar, over Eras, the date of a day; Ranges resolveRange of cmd/rollup/main.go with the arithmetic
--   of dates and months; Command its run. Boundary, Days and Exit prove.
-- - Middleware: internal/httpapi/middleware. Its root has the exempt paths and presentedKey; Auth has
--   APIKeyAuth; RateLimit the token buckets. Presented, Access and Buckets prove.
-- - Config: internal/config. Its root has the settings and their problems; Validation has Validate; Loader
--   the readers and Load. Validity, Settings and Loading prove.
-- - Http: internal/httpapi/params.go. Its root has the problems of a query; Params the range, the filters
--   and the limit; Requests the handlers' requests; Months those for monthly statements. Limits, Ranges,
--   Bounds and Statements prove.
-- - Pages: internal/store/postgres/allocations_page.go. Its root has the cursor and the rows; Fetching has
--   Allocations. Cursors, Suffixes, Paging and Walk prove.
-- - Writer: cmd/collector/writer.go, with the transaction of internal/store/postgres/querier.go and the batch
--   of allocation_repo.go in its root; Persist has write. Caches, Identity and Atomicity prove.
-- - Trends: Trend of internal/store/postgres/rollup_repo.go: its query, and its rows made into series. Series
--   proves.
-- - Summaries: CostSummary of internal/store/postgres/report_repo.go. Accepted proves.
-- - Handlers: the handlers of internal/httpapi. Its root has the responses of respond.go and the guard of
--   clusters.go; Costs has costs.go; Advice recommendations.go; History trends.go; Lists inventory.go, the
--   listing of clusters.go and health.go. Fleet, Currency, Totals and Comparing prove.
-- - Collector: the cycle and the loop of cmd/collector/main.go, over Costing and Writer, with ObserveCycle of
--   internal/metrics. Cycles and Freshness prove.
-- - Health: internal/health, the aggregation of concurrent readiness checks. Schedules proves.
-- The modules called Tests run the code on concrete input.
--
-- How the code is rendered. A method that changes its receiver returns the changed value. An error is a
-- value of a data type with one constructor for each message; a text of fmt.Sprintf is its format with
-- its arguments. errors.Join is the list of the errors that it joins. A Go map is an association list
-- whose order stands for the unspecified order of iteration, or a function where its order is of no
-- account (the usages). The goroutines of a collection are an order of merging, which is a parameter of
-- Collect, and those of the health checks an order of writing. A time is the integer number of nanoseconds
-- since the zero time. Of a Kubernetes object the fields that are read are modelled. A
-- database, a clock, a digest and a token bucket are parameters, a database with its state threaded
-- through the calls, or by what it answers to a query where it is only read. Money and floats are any types with the operations used; a theorem names the laws it needs.
-- Strings are lowered on ASCII letters. Every loop of the code is
-- structural recursion; only the client of Pages.Walk, which follows cursors, has a number of pages as fuel.
--
-- What is not modelled: SQL and the schema, the Kubernetes informers, the transport to Prometheus, the
-- encoding of answers to JSON and the HTTP server with its other middleware, the advisory lock (what taking
-- it comes to is an input of the rollup command) and the remaining queries of internal/store/postgres, logs and the other metrics, process start and shutdown, and
-- the web front end. Decoding of YAML and opening of files come before LoadCatalogue's text.
pub mod Common
pub mod Numeric
pub mod Config
pub mod Clock
pub mod Domain
pub mod Pricing
pub mod Prom
pub mod Kube
pub mod Costing
pub mod Recommend
pub mod Rollup
pub mod Middleware
pub mod Http
pub mod Writer
pub mod Pages
pub mod Trends
pub mod Summaries
pub mod Handlers
pub mod Collector
pub mod Health
