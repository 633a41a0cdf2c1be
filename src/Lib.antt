-- ===== src/Lib.antt =====
-- A model of gbalancer, a TCP load balancer, and the theorems about it.
--
-- The program. A wrangler (wrangler/) probes the backends periodically with one of four health
-- drivers and sends the map of the active ones to an engine. The native engine (engine/native/)
-- keeps a scheduler: a heap of backends ordered by their connections, or by their weights for
-- failover, a registry by address, and the requests. One goroutine handles one event after
-- another: a client's connection, the end of a request, a message of the wrangler, a new or a
-- failed spdy tunnel. The ipvs engine (engine/ipvs/) passes the same messages on to the kernel's
-- virtual server. The configuration (config/) names the backends and the listen addresses. main.go
-- starts one engine, with its listeners, in a process that daemon/ sets up: in the foreground, or
-- as a worker of a supervisor.
-- cluster/ registers a node in etcd and elects a leader, cmd/ldirector uses it; cmd/streamd is the
-- agent at the other end of the spdy tunnels. cmd/virtnet runs a sandbox on a network of the
-- host's libvirt.
--
-- The files.
-- Prelude: names shared by all; Prelude/Outcome calls that can panic, Prelude/Lists lists over the
-- native numbers, Prelude/Dict maps as association lists. Texts: lists of strings, strings.Split,
-- strings.Fields, and bytes.
-- Decimal: strconv.Itoa and Atoi; Decimal/Laws: that they fit. Paths: path.Join.
-- Backend: engine/native/backend.go and the types of spdy.go. NewBackend is new_backend,
-- SwitchSpdyConn switch_spdy_conn, SpdyCheckStreamId spdy_check_stream_id, ForwarderNewConnection
-- forwarder_new_connection. Backend/Check: what SpdyCheckStreamId leaves alone. Backend/Forward:
-- the tunnel that ForwarderNewConnection takes. Backend/Race: one tunnel under several goroutines.
-- Pool: engine/native/pool.go, the methods of Pool. Heap: container/heap over them, with Push as
-- add, Pop as take_top. Heap/Order, Heap/Sift, Heap/Up and Heap/Down are the lemmas on the order,
-- Heap/Contract what the calls promise, Heap/Add and Heap/Remove that they do, Heap/View the pool
-- as a set, Heap/Frame what the calls leave alone.
-- State and Scheduler: engine/native/scheduler.go. The methods keep their names in lower case;
-- on_status, on_failed and on_ready are the cases of Schedule's select for a message, for
-- spdyFailChan and for newTunnelChan, and review, bring_up and drain their loops. Scheduler/Serve:
-- a client's request, from engine/native/native.go, and the case for it. Scheduler/Running: the
-- goroutine run, as forward and then settle, which waits as long as a copy blocks and is complete
-- otherwise, with its Laws. Scheduler/Copies: the two goroutines sockCopy and run's wait for them;
-- Copies/Laws: what holds when run ends, Copies/Ends: that it does. Scheduler/Reach: all of them
-- as steps, a panic included, after which EventLoop goes on. Scheduler/Invariant states the
-- invariant; Places, Readd, OffHeap, Registry and Moves are its lemmas on the heap and the
-- registry, Names those on the addresses of a message, Review and BringUp those on the two loops
-- of the status case; Dispatch, Keep, Finish, Status, Waiting, Ready and Room are about the
-- handlers, and Retry about a request that is dispatched again. Client and Whole follow one client
-- through all of them, Kept names the handlers that leave the registry alone, Trace follows the
-- registry through any steps, and Again is about messages that come before a session. Plain and
-- Stranded are about a scheduler without tunnels and the requests that wait in it, and Latest
-- about its registry. Whereabouts says where a request is: Requests and Backends are its handlers,
-- Steps the other steps, and Accounted follows one through any steps. Balance is about clients
-- that come one after another: Fewest in the mode of the fewest connections, Failover in the other
-- one. Drained is about the requests that wait for a session, and Refused about a client whom
-- every backend refuses.
-- Spdy: engine/native/spdy.go, CreateSpdySession as create_spdy_session over a list of seconds;
-- Spdy/Result: what becomes of its session.
-- Shuffle: utils/utils.go, Shuffle, and sort.Strings.
-- Wrangler: wrangler/wrangler.go. Wrangler/Probe: wrangler/wrangler_tcp.go,
-- wrangler/wrangler_http.go, wrangler/wrangler_ext.go. Wrangler/Drivers: what the drivers of a
-- configured wrangler report. Wrangler/Sync: what ValidBackends does to the map.
-- Wrangler/Galera: wrangler/wrangler_galera.go.
-- Ipvs: engine/ipvs/ipvs.go. Ipvs/Sync and Ipvs/Loop: the backends after one message and after
-- several.
-- Ipvs/Kernel: the kernel after the commands. Pipeline: the wrangler, the director and the kernel
-- together, Pipeline/Native: the wrangler and the native engine, and both engines side by side.
-- Config: config/config.go and config/listen.go.
-- Engine: engine/engine.go, Serve of engine/native/native.go and the Server of main.go; a round of
-- an accept loop, a closed listener, the end of the director and Stop are its steps. Engine/Stop:
-- what the WaitGroup counts; Engine/Drain: closed listeners. Main: main.go, with Handle and Start
-- of daemon/; Main/Roles: which process serves.
-- Pidfile: WritePid of utils/utils.go. Net: GetFirstIPAddr and GetIPAddrs of utils/utils.go.
-- Shell: RunCommand and EnsureCommands of utils/utils.go, and utils/sandbox.go. Their Laws are
-- about them.
-- Daemon: daemon/daemon.go; Daemon/Log: daemon/logfile.go; Daemon/Supervisor:
-- daemon/supervisor.go.
-- Daemon/Loop: the loops that start something again, RunWait and runLoop included. Daemon/Setup
-- and Daemon/Launch: the processes of one start. Daemon/Handlers: what a daemon runs. Logger:
-- log/log.go. Streamd: cmd/streamd/main.go and cmd/streamd/handler.go; Streamd/Streams: the
-- goroutines of a stream.
-- Libvirt: utils/libvirt and main of cmd/virtnet; Libvirt/Contract: what libvirt documents;
-- Libvirt/Laws: the networks of the host.
-- Cluster: cluster/client.go, and main of cmd/ldirector/main.go. Cluster/Laws: what the client
-- relies on in a store; Cluster/Election: several processes with one key.
-- Tests: runs on concrete inputs.
--
-- How state is modelled. A pointer to a backend or to a request is a number, and the objects stand
-- in a function from the numbers; the slice of the heap is a function with a length and a
-- capacity. An index of -1 is `none`. The uint counters wrap at 2^64. What a handler does to the
-- outside, to close a connection or to start CreateSpdySession, is a list of effects. The
-- goroutine run is two steps, up to the return of ForwarderNewConnection and from there on; its
-- copies in between are a relation of their own, which touches nothing of the scheduler. The first
-- step takes ForwarderNewConnection as a whole, and Backend/Race its single reads and writes of a
-- tunnel. A Go map is an association list in any order, so a theorem for every list holds for
-- every order of a range. A process is a record with its environment, the files that it can see
-- and how it goes on; what it starts runs the same program with that environment. What the rest of
-- the world does to the store during a sleep is a function on its states.
--
-- Bounds and fuel. The sift loops of the heap run on fuel: a climb from j has j + 1 rounds and a
-- descent in n entries n + 1, which is enough since each round changes the level; the theorems say
-- that the calls return. The heap holds at most 8192 entries, and a push past that panics, so a
-- message of the wrangler and a session come with the hypothesis that there is room. WritePid
-- reads eight bytes, so a pid file is compared only for pids below 10^8. The wait after a worker
-- sleeps at most six times, since it ends once more than five seconds have passed. Register,
-- BecomeLeader and the supervisor run over the list of what happens to them, one entry for each
-- round. A client whom every backend refuses is followed for as many rounds as the heap has
-- backends, since each of them takes one off.
--
-- Parameters. The network, the database, the commands, the clock, rand.Perm, the JSON decoder,
-- spdystream, the mysql driver, what os does with files and signals, the etcd client over a store
-- whose changes have rising indices, libvirt, and ipvsadm.
--
-- Not modelled: the bytes that a connection carries (only whether a copy failed), the content of
-- the logs, the vendored packages, and the test of the wrangler.
pub mod Prelude
pub mod Backend
pub mod Pool
pub mod Heap
pub mod Shuffle
pub mod Texts
pub mod Decimal
pub mod Pidfile
pub mod Daemon
pub mod Paths
pub mod Cluster
pub mod Engine
pub mod Libvirt
pub mod Main
pub mod Shell
pub mod Logger
pub mod Net
pub mod Streamd
pub mod Pipeline
pub mod Wrangler
pub mod Ipvs
pub mod Config
pub mod State
pub mod Scheduler
pub mod Spdy
pub mod Tests
