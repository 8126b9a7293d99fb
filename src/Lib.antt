-- ===== src/Lib.antt =====
-- A verification library for trinetra, a TCP scanner with passive discovery of services.
--
-- The program. `main` reads the command line and starts one of several engines: the SYN scan
-- (scan.cpp), the passive capture (net_capture.cpp), DNS work (handler.cpp, dns_enum.cpp) and
-- probes of services that were found. Paths here are from the repository's root.
--
-- NetCapture is net_capture.hpp and net_capture.cpp. A `Capture` is the class's state: options,
-- counters, the pending SYN, QUIC and DNS requests, and the keys that were reported. Each handler
-- is a function from a capture, a frame and readings of the clock to the capture after it and the
-- finding that reaches the callback, if one does: Tcp (`handle_tcp`), Udp (`handle_udp`,
-- `handle_quic`, `handle_dns`), Frame (`handle_packet`, `handle_ipv4`, `handle_ipv6`), Dedupe
-- (`dedupe_and_mark`), Sweep (`sweep_expired`) and Run (`run`, as a fold over the rounds of its
-- loop). A frame is a list of bytes, and a read outside of it is `none`. The handlers read the
-- clock once for the time of a request or a finding (`seen`), and once more in `dedupe_and_mark`
-- (`now`). Times are nanoseconds of the steady clock, which does not run backwards, so that the
-- subtraction of ℕ is the code's. Durations of the options are natural numbers: they are taken not to be
-- below zero. `inet_ntop` is the C library's, and a parameter. Counters wrap
-- at 64 bits. Step, Trace, Reported, Tidy and Outcome carry what the proofs about runs share.
-- Duration is `parse_duration_ms`, in which a product above LLONG_MAX is an overflow.
--
-- Dns is the part of handler.cpp that writes queries and reads answers. Reader is code that reads
-- from a buffer: it is done, or at fault for a read outside, or spent when its fuel is gone.
-- The fuel of `dns_skip_name` is a byte more than the buffer, as each round moves on by a byte at
-- least; that of `dns_decode_name` is a pass over the buffer for each of the 128 jumps and one
-- more. `dns_encode_name` runs on the host name's length. The buffer's length is the argument
-- `len`. The sockets and the list of resolvers are not modelled.
--
-- Ipv6Ext is the hop-by-hop, destination options, routing, AH and ESP headers that scan.cpp
-- builds. A header is the list of the bytes that are written, and the draws of the random engine
-- are a parameter. The PAD loop runs on the bytes that are left
-- to write, of which each round takes two, and the padding loops on 8.
--
-- Rtt is `RTTTracker` of scan.hpp: a function for each operation, over natural numbers that are
-- taken to be small enough for `int`, and updates one after the other.
--
-- Ports is `read_ports_from_file` of utils.cpp, over the bytes of the file. Its loop runs on
-- their number, as a round takes a byte at least. `std::sort` is an insertion sort.
--
-- Reactor is the event loop of async_io.hpp and async_io.cpp for one shard. Types has the structs
-- of the header and `System`: the clock, sockets, the event queue and OpenSSL, as functions of the
-- number of the call, so that each call may give anything its interface allows. Its laws are that
-- a read gives no more than it is asked for, and that a new descriptor is not one of those open. A
-- `Context` is the shard and the operation that a handler works on; Steps and Connect have the
-- handlers (`advance`, `step_connecting`, `step_tls_handshake`, `step_sending`, `step_recv`,
-- `arm`, `begin_connect`), Tables the deadlines, the budgets and `finish`, and Worker the round of
-- `worker_loop`, `submit`, `cancel`, the sweep and the clean-up, over a store of the objects by
-- their addresses. `on_complete` is an entry in `completed`. Times are milliseconds, and the `int`
-- arithmetic of the budgets is taken not to overflow. Run has the
-- sequences of submissions, cancellations and rounds. The loops over reads and writes run on fuel:
-- a round takes a byte, or a call that was interrupted, so the bytes to write and to receive and
-- the number of the call from which none is interrupted are enough. A call of OpenSSL does not
-- report an interruption of its own: the model allows one. The set-up of TLS contexts, names and
-- verification is behind `new_ssl`. Accounts and Once carry what a run keeps: an operation that
-- was submitted is completed, in the table, or queued.
--
-- Checksum is `icmp_checksum` of icmp_ping.hpp, whose code `ip_checksum` of scan.cpp repeats, and
-- the TCP checksum of `build_packet` and `recompute_tcp_checksum` in scan.cpp, over bytes that are
-- read as words of a little-endian host. Sums wrap at 32 bits; a sum of that size is folded after
-- two carries, and the third round of the loop sees it.
--
-- Ranges is the tables of utils.cpp by which the provider of an address is found:
-- `add_cidr_range`, `finalize_ip_range_tables` and `lookup_ip_provider`. `inet_pton` and `strtol`
-- are the C library's, and parameters. An `int` is its two's complement at 32 bits, so that one
-- below zero is above every prefix length. A mask is the rounding down to a multiple of a power
-- of two. `std::sort` is an insertion sort, and `std::upper_bound` a walk along the sorted table.
--
-- Probe is the matching of a response against the service probes in probe.hpp and probe.cpp. Types
-- has the structs; a probe has its address, its fallbacks are addresses, and a text is its bytes
-- without a byte 0. PCRE2, and the templates that are filled from what it captures, are a function
-- in each rule: what they give for a response. Match has the rules (`testMatch`, `tryProbeSet`,
-- `processMatch`, `scanThroughTunnel`), Lookup the database (`getProbeByName`, `isExcluded`,
-- `probesForPort`, `buildPortIndex`), Engine `matchResponse` with its numbered steps and
-- `buildResult`, Fallbacks `compileFallbacks`, and Excluded `ExcludedPorts::parse`, whose loop
-- takes a byte in each round. A step leads to a `Progress`: matching goes on, it is over by `goto
-- done_hard`, or a null pointer was read. Fingerprint is `addToFingerprint` over the text and the
-- size of its allocation, where a write outside is `none`, and Escape is `cstring_unescape`, whose
-- loop runs on the length of the text, as a round takes a byte at least. Characters are those of
-- the C locale, the local time is a parameter, and the numbers of a header and a record have 10
-- digits at most, as 32 bits do.
--
-- Not modelled: sockets, io_uring, OpenSSL, libcurl and PCRE2, output, and the components of the
-- manifest that are marked so.
mod Prelude
pub mod NetCapture
pub mod Dns
pub mod Ipv6Ext
pub mod Rtt
pub mod Ports
pub mod Reactor
pub mod Checksum
pub mod Ranges
pub mod Probe
