-- ===== src/Lib.antt =====
-- field-cage watches the outbound connections of a CI job and, in block mode, denies those that a
-- policy does not allow. This library models the Go program.
--
-- The parts and their files, with the paths of the code from the root of the repository:
--   Policy/   internal/policy/policy.go: Build is `newEngine`, one function for each branch of its
--             loop; Decide is `IsAllowedDomain`, `matchesWildcard` and `Allow`; Engine holds the
--             state, whose Go maps are lists of keys, or of keys with values. Spec and Judge say
--             independently what an entry covers and which entries are well-formed. Load is
--             `LoadFile`.
--   Ebpf/     internal/ebpf: Watcher is `AllowIP`, `AllowCIDR`, `AllowResolver`, `SetAllowAllDNS`
--             and `seedResolvers` of loader.go; Kernel is `check_ipv4` and `check_ipv6` of
--             bpf/block.c, which read the maps that Watcher writes; Maps is the interface of these
--             maps; Event is event.go, and Wire lays a record out as `struct event` of
--             bpf/connect.c does; Cache is dns_cache.go; Resolvers and Dns are dns_parse.go and
--             the loop of dns_watcher.go; Resources is `newWatcher`, `attachBlock`, `newDNSWatcher`
--             and the two `Close`, as logs of what they acquire and release.
--   Agent/    cmd/agent/main.go: Mode is `resolveMode`; Exempt is `dnsExemptFor` and
--             `verdictForEvent`; Seed is `seedAllowlist`; Loop is `Watcher.Read` and the goroutine
--             of `run` that prints a line for each event; Start is `run` up to its loop and its
--             end; Steps is what runs at the same time behind the start, as a step relation whose
--             steps are single writes to a map or single records of a ring buffer; Command is
--             `runReport` of cmd/agent/report.go; Main is `main`, which dispatches on the arguments.
--             Lookups is the pool of goroutines that looks up the domains for the seeding.
--   Report/   internal/report: Verdict is verdict.go; Parse and Scan are parse.go; Summary is
--             summary.go, with the collector in Summary/Collect and the rows in Summary/Order; Render
--             is render.go with the renderers: Text, Markdown with Page, Csv, Json and Annotations.
--   Net/      what the program uses of the packages net and net/netip: addresses, their texts and
--             their parsing, networks, and the split of a host from its port.
--   Text/     strings as lists of bytes, with what the program uses of strings, strconv,
--             unicode/utf8 and unicode. The tables of unicode are the record `Tables`.
--   Base/     lists over the native numbers, results, and the tests that return a Bool.
--   Tests/    runs of the definitions, and instances of the theorems.
--
-- The policy decides for a domain and an address. The agent seeds the enforcement maps from the
-- policy, the DNS watcher extends them from observed responses, and the kernel programs decide by
-- the maps; the verdict of an event is what the agent prints. The report reads the printed lines
-- back.
--
-- Parameters: the kernel's maps are the record `KernelMaps`, whose laws are those of an LPM trie and
-- of a hash map; a write may fail for reasons of its own. The parser of
-- golang.org/x/net/dns/dnsmessage is the record `Parser`; its laws say that a header stays in front
-- of its answer, and that reading an answer uses it up. The DNS lookups of the seeding are a
-- function, and so are the reading of a file, the YAML decoder, the parsing of the flags and the
-- alignment of text/tabwriter. Which kernel resources are granted is the record `Kernel`.
-- Tests/Doubles has instances of the maps and of the parser.
--
-- Bounds: the loop over the answers of a response runs on fuel, one more than the number of
-- answers that the parser has left; the digits of a number run on one more than the number, which
-- has fewer digits; an IPv6 address is read in at most eight groups. The loops over lists and
-- bytes are structural. Numbers read from bytes are little-endian. Ports, identifiers and counts
-- are natural numbers.
--
-- Not modelled: the capture programs bpf/connect.c and bpf/dns.c, the parsing of the flags, the
-- delivery of signals, log messages, and the quoting of encoding/csv and encoding/json.
-- Sorting is insertion sort: the packages promise a sorted arrangement, and nothing of elements
-- that tie.
pub mod Agent
pub mod Base
pub mod Ebpf
pub mod Net
pub mod Policy
pub mod Report
pub mod Tests
pub mod Text
