-- ===== src/Lib.antt =====
-- Vair: a desktop client of proxy engines, by parts of its core.
--
-- The core (vair/core) keeps tabs of configurations, connects through one of them by starting an
-- engine, and relays the programs' connections to the engine's port. The user interface calls the
-- operations that this library models; the relay feeds the parsers with the bytes that it passes.
--
-- The bytes of a connection. Go code that indexes a slice is in `Outcome` (Base/Panic): a value,
-- or the panic of an index out of range. A byte is a number; what bounds it is said where it
-- matters. Reads are lists of bytes, so that a cut of the stream into reads is a list of lists.
--   Spy               vair/core/relayspy.go, the states of its parsers
--   Spy.Request       `socks5Request`; a destination is its host and port, before
--                     `net.JoinHostPort` prints them
--   Spy.ServerName    `tlsServerName`, for any test in the place of `validHostName`, which calls
--                     `net.ParseIP`. The loop over the extensions has the message's length for
--                     fuel, each round takes four bytes or more
--   Socks.Client      vair/core/socksudp.go, `socks5ClientCmd`
--   Socks.Watch       `socksCmdWatch.feed`
--   Socks.Handshake   the client's bytes as RFC 1928 and RFC 1929 write them
--   Socks.Reply       `socksReplyRewriter`: `parse` and the part of `Read` that takes bytes in.
--                     `out` keeps all that was put out. `cmd` and `relay` are the callbacks'
--                     answers; an error of the reader below is not modelled
--
-- The rows of the tabs. A `*ConfigEntry` is a number and `cell` the store that it points into, so
-- that lists share their entries as the code's do. Locks are held for the whole of an operation or
-- its effects; calls of the store, the cache and the interface are recorded as `Effect`s in their
-- order. Log lines are left out.
--   Table             the state (vair/core/types.go, and `lastDelete` of entry_undo.go)
--   Table.Move        vair/core/entry_move.go, `MoveEntries`
--   Table.Rows        vair/core/entry_undo.go, `resolveRows`, `entryFor`, `IndicesOf`, and
--                     `memEntry` of memstore.go
--   Table.Delete      `DeleteEntries` of entry_api.go, `DeleteFailed` of select_api.go and
--                     `UndoDelete` of entry_undo.go. `loadTabEntries` is the tab's list in memory
--   Saver             `saveTabOrder` of entry_move.go and its goroutines, for one tab: each section
--                     under a lock is a step, and steps of moves and of writers interleave
--   Tabs              vair/core/tab_api.go and tab_undo.go: the tab bar, `DeleteTab` and
--                     `UndoDeleteTab`, and `ReorderTabs` of select_api.go (Tabs.Order). The timer
--                     and the goroutine that removes a deleted tab's rows are steps of their own
--
-- The table as it is shown. Texts are lists of code points; `strings.ToLower` is exact on ASCII and
-- takes a table for the rest. `Outside` has what the table asks of the parsers of links, of the
-- statistics and of the service checks. Speeds and shares are only compared, and are numbers.
--   View.Order        vair/core/memstore.go, `lessKey`, `splitSort` and `speedRank`
--   View.Sort         `sort.SliceStable`, as insertion
--   View.Filter       the filter's terms, `termHitKey`, `filterTermsMatch`, the flags in a name;
--                     `normNetwork` and `normSecurity` of dedup.go
--   View.Exclude      vair/core/excludefilter.go
--   View.Window       `memOrder` without its cache, `memWindow` (on 64-bit integers, with the panic
--                     of a slice whose end has wrapped) and the lists made of an order
--   View.ByRaw        `memEntryByRaw`
--   View.Cache        the slot that keeps the last order: `memInvalidate`, `memCacheStore` and the
--                     readers of `memOrder`. What a signature says of an order is a parameter; a
--                     change of rows and a call of `memInvalidate` are steps of their own, since
--                     `RenameEntry` makes no such call
--
-- The privileged helper's check of a configuration (vair/helper/validate). A document is decoded
-- JSON, an object with each of its keys once; `json.Unmarshal` of the text is a parameter. Of a
-- refusal its reason is kept and its text left out.
--   Helper.Paths      validate.go, `checkPath` for Linux, and `path.Clean`
--   Helper.Windows    windows.go, `checkWindowsPath`
--   Helper.Config     validate.go, `Config` and the checks that it makes
--
-- The connection.
--   Liveness          vair/core/watchdog.go, the watch of the byte counters. A time is a number of
--                     nanoseconds of a clock that does not run backwards
--   Auto              vair/core/autoconnect.go, `autoCandidates`. The figures of the measurement
--                     history (nodestats.go) and the parsers of links are parameters
--   Block             vair/core/killswitch.go: the persistent block and the session's own one under
--                     changes of the settings, at the start and at the end. `Platform` has the
--                     calls of the firewall; `moments` has what held after each of them
--   Guard             vair/core/sysproxy_guard.go, the guard of the system's proxy setting
--   Chain             vair/core/chainsplit.go, `splitChain`, for any choice of a hop's engine
--
-- The engines' configurations. A Go map is an object of decoded JSON (Base/Json), whose fields are
-- in the order in which they were put. `Env` has what the builders read of the settings, and what
-- they use of Go's library.
--   Node              a parsed configuration: vair/core/protocols.go, proxyproto.go, wireguard.go
--                     and jsonconfig.go. The kind and the one pointer that is set are a constructor
--   Xray              the outbounds for xray; Xray.Stream is `xrayStreamSettings`
--   Xray.Chain        `xrayShell`, `buildXrayConfigForNode`, `buildXrayChainConfig` and
--                     `applyXrayFragment`. What `xrayRoutingForProxy` returns is a parameter
--   Singbox           the outbounds and endpoints for sing-box; Singbox.Blocks has its TLS and
--                     transport blocks
--   Singbox.Chain     `singboxChainEgress`, and `applySingboxFragment` of settings.go
--   Singbox.Tun       `buildSingboxTUNConfig`, with `lanProxyInbounds` of engine.go and, of
--                     tunconfig_linux.go, `adaptTUNConfig`. The blocks `dns` and `route` are
--                     inputs, as they stand when the configuration goes to the helper
--   Hops              the tags of a chain's hops, and the way from tag to tag that both engines
--                     document: an outbound is dialled through the one that it names
--   Dial              `engineForNode`, `chainEngine`, and `engineForChainHop` of chainsplit.go
--
-- Routing. `Library` has what Go's library decides of an address, a port, a regular expression and
-- a letter's case. Refreshing the lists and arming the counters are left out.
--   Rules             vair/core/routing_rules.go, `parseRule`, `cleanRuleHost`, `classifyRules`
--   Rules.Punycode    `punycode`. The loops have the number of runes, and the number that is
--                     written or scaled down, for fuel: each pass handles a rune, and each round
--                     divides the number
--   Rules.Xray        `xrayRules`, and `xrayRoutingForProxy` of protocols.go
--
-- Not modelled: the network and process code, the store and its file, the parsers of links, the
-- operating systems' parts, the helper but for its check, and the user interface.
--
-- Base has the shared names, Booleans, lists over the native numbers and `Outcome`; Tests has runs
-- on concrete inputs.
pub mod Base
pub mod Spy
pub mod Rules
pub mod Singbox
pub mod Socks
pub mod Auto
pub mod Block
pub mod Chain
pub mod Dial
pub mod Guard
pub mod Helper
pub mod Hops
pub mod Liveness
pub mod Node
pub mod Saver
pub mod Tabs
pub mod Table
pub mod Tests
pub mod View
pub mod Xray
