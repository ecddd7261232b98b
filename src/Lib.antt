-- ===== src/Lib.antt =====
-- A model of the gateway's control plane in Go: which prefixes it announces over OSPF, how it brings
-- the host to the desired state, and who may ask it to.
--
-- The parts. An administrator logs in and edits nodes, rules and the mode; the store keeps them as
-- a desired state with a generation. The reconciler loads a snapshot, renders artifacts from it, and
-- lets one driver per component plan and apply what has changed. In Modes B and C the route engine
-- computes from the snapshot which prefixes the main router should send here. It must never
-- announce an address of a proxy node, since the path to the node would then lead back here.
--
-- The files.
--   Prelude   names shared by all, lists over native numbers, sort.Slice as an interface with
--             insertion sort as an instance, maps as association lists
--   Text      the functions of Go's strings package that the code calls
--   Net       addresses and prefixes of net/netip; Net/Text is its text syntax, a parameter
--   Model     internal/model/model.go: the enumerations and the records
--   Desired   internal/desired/snapshot.go: Snapshot, and Node, Group, EnabledNodes, DefaultNode,
--             ActiveRules as node_of, group_of, enabled_nodes, default_node, active_rules
--   Rulespec  internal/rulespec: Domain has ParseDomain and Matches, Address NormalizeIPOrCIDR,
--             Tag NormalizeGeoTag, Upstream NormalizeUpstream, UpstreamHost and IsPublicAddr, Values
--             the other functions
--   Routes    internal/routes/engine.go: Compute has the candidates of each kind of rule and
--             Compute itself, Policy has validate, protectedPrefixes, coveredBy, allowlist,
--             inAllowlist and the policy loop, Prune has prune, Preflight has Preflight, Rows
--             has ToPublished and ProtectedDomains
--   Driver    internal/driver/driver.go: plans, and the interface as a record over a world
--   RouteTable internal/driver/route/route.go: Plan, Apply, apply, paced, Health
--   Reconcile internal/reconcile/reconcile.go: Loop is the loop over the drivers, Pass the rest of
--             pass with persistRoutes, Preview has PlanOnly, Shown New and Status,
--             and fail and its delay stand in Reconcile itself
--   Auth      internal/auth/service.go with the queries of internal/store/auth.go: Limiter, Login,
--             Guard (Authenticate and Middleware), Credentials (ChangePassword, CreateToken, Logout
--             and ValidateNewPassword of internal/auth/password.go)
--   Render    internal/render/xray.go: Targets has defaultTarget, missingTarget, catchAll,
--             resolveAction and groupTarget, Probes has ProbeSlots and the probe channel, Rules has
--             rule and the list of routing rules that renderXray builds
--   Trace     internal/trace/trace.go: Run, resolve, fallback, matches, entryMatches
--   Resolver  internal/resolver/resolver.go and loop.go with the table of internal/store/resolve.go:
--             DNSLookup, Refresh, refreshOne, FailRetry, NextDue and the waits of round
--   Events    internal/events/bus.go: Publish and Subscribe for one subscriber
--   Schedule  internal/update/schedule.go: ParseSchedule, Next and a round of RunScheduler
--   Geo       internal/geo: the loop over the fields of a message stands in Geo itself; Sites has
--             splitList, readStringField, decodeGeoSite, decodeDomain and EncodeSiteList, Addresses
--             decodeGeoIP and EncodeIPList, Reader the files Site and IP with ensure, Entries, CIDRs,
--             EntriesUncached, Tags and HasTag, IpIndex and SiteIndex the two indexes with Lookup
--   RuleStore internal/store/rules.go: the changes of rule sets and rules; History has Mutate, WithTx,
--             captureDesired, restoreDesired, pruneSnapshots and RevertTo
--   Tests     concrete runs
-- The child modules with other names hold what is proved of these.
--
-- How state is modelled. A pass takes and returns the reconciler's record, which holds the world that
-- the store and the drivers change. A login takes and returns the map of failed logins, and a
-- request the tables of the store. The renderer of the rules takes and returns what it collects, the
-- balancers and the warnings. The resolver's workers are a list of jobs in the order in which they
-- end. The channel of a subscriber is shared by the publishers, whose operations mix in any order.
-- Times are natural numbers of nanoseconds, and of seconds in the resolver and the schedules. A time
-- that is read twice is two parameters. Texts are lists of code points, and lower case is that of ASCII letters.
--
-- A geodata reader takes and returns what it holds, and is given what each call of os.Stat and
-- os.ReadFile answers. The tables of the rule store are lists of rows.
--
-- Bounds and fuel. The loop over a message has as much fuel as the message has bytes, and each field
-- takes one at least. The loop of paced has as much fuel as there are prefixes, each step takes one at
-- least, so that it is enough. The loop of FailRetry has as many rounds as the code counts. Every other
-- loop runs over a list.
-- Addresses are numbers below two to the power of 32 or 128 in use, and no statement needs the bound.
--
-- Parameters. The text syntax of net/netip; sort.Slice, which returns the same elements in order;
-- the geodata sources of the route engine; protowire with its documented behaviour, and
-- regexp.Compile; the store's queries, the renderer and the drivers of a pass; the password
-- check and hash, the random tokens and the token hash; the kernel's routing
-- tables and the pauses between batches; how Xray tests a rule object, regular expressions, the
-- strategy in a group's JSON, which node outbounds can be built, what a name server replies; and the
-- calendar of the time package, in a zone whose clock is not changed.
--
-- Not modelled: the SQL statements but those on rule sets, rules, changesets, sessions, tokens and resolved
-- names, whose effect on the rows is written out; failures of the database that no key, reference or
-- check of the schema causes; the other renderers' texts and Xray's inbounds and outbounds; the
-- drivers' processes and netlink calls; the HTTP handlers, updates, provisioning and imports, which
-- are input and output around the parts above; the timers of the reconciler's goroutine and of the
-- resolver's loop; requests that run at the same time; Labels and SplitHostPort of the geodata
-- indexes; nodes, groups, devices and settings in the snapshots of the rule store.
pub mod Prelude
pub mod Text
pub mod Net
pub mod Model
pub mod Desired
pub mod Rulespec
pub mod Routes
pub mod Driver
pub mod RouteTable
pub mod Reconcile
pub mod Auth
pub mod Render
pub mod Trace
pub mod Resolver
pub mod Events
pub mod Schedule
pub mod Geo
pub mod RuleStore
pub mod Tests
