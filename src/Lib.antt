-- ===== src/Lib.antt =====
-- Models of the lancet load agent: the C code under lancet/agents and lancet/inc/lancet, which sends
-- requests over TCP at given times, matches the responses with the send times, and keeps
-- throughput and latency statistics that a manager thread reports to a coordinator.
--
-- The parts, and how they interact. An agent thread runs one of the main loops of
-- lancet/agents/tp_tcp.c. In a round it may pick a connection, ask the application protocol
-- (lancet/agents/app_proto.c) for a request, send it, and note the send time in the connection's
-- ring (lancet/agents/timestamping.c); then it handles the events of its sockets, where the
-- protocol counts the responses, the ring gives back the send time, and the statistics
-- (lancet/agents/stats.c) take a sample. The manager (lancet/agents/manager.c) takes the messages of the
-- coordinator: it sets the load, starts a measurement, which clears the threads' statistics, and
-- answers with a report, for which it aggregates and analyses them. lancet/agents/agent.c reads
-- the arguments and starts the threads and the manager.
--
-- Base: Boolean tests and lists over the native numbers, arrays as functions with `update`, `copy`
--   and `slice`, machine words (`wrap16`, `wrap32`, `wrap64`), integers, and `Outcome`, how a piece
--   of C code ends: with a value, or by a failed assertion, a division by zero, an access out of
--   bounds, a return out of the main loop, or a call of exit.
-- Timespec: `timespec_diff` of lancet/agents/timestamping.c.
-- Stats: lancet/agents/stats.c. State has the types of lancet/inc/lancet/stats.h, Samples what a
--   thread records, Aggregate what the manager adds up, Sort the comparison functions, Percentiles
--   `compute_latency_percentiles_ci` and `get_ci_bounds`, Ks the statistic `ks` and
--   `compute_convergence`, Interarrival `check_ia` and `collect_reference_ia`, Independence
--   `check_iid`.
-- Timestamping: lancet/agents/timestamping.c. Pending is the ring of send times and its operations;
--   Extract is `extract_timestamps` and `get_tx_timestamp`, Setup what switches the timestamps of the
--   network card on; Queue, Runs, Nic and Acks are the laws.
-- Rand: lancet/agents/rand_gen.c. Real and Libc are what the agent takes from libm and the C library,
--   Strtok is strtok on a buffer, Gen the distributions, Init `init_rand`; Print has the descriptions
--   that a user writes, and Again what a second use of a description makes; Cpp is
--   lancet/agents/cpp_rand.cc.
-- AppProto: lancet/agents/app_proto.c. Response is `consume_response`, Request `create_request`,
--   Decimal what snprintf prints for a number, Init `init_app_proto`, Descriptions the texts for it.
-- Agent: lancet/agents/args.c and lancet/agents/agent.c. Config is `struct agent_config`, Targets the
--   option `-s`, Args `parse_arguments`, Load `get_ia`, `set_load`, `prepare_request` and the choice of
--   the main loop, Start `agent_main` and `main`.
-- Tcp: lancet/agents/tp_tcp.c. Connection has `struct tcp_connection` and `pick_conn`, Opening the
--   functions that open the connections, Receive the handling of what `recv` gave, Thread the thread's
--   variables and what a round depends on, Throughput `throughput_tcp_main`, Latency
--   `latency_tcp_main`, Symmetric `symmetric_tcp_main`, Nic `symmetric_nic_tcp_main`; Stream,
--   Reassembly, Reads and Balance have the laws that these share.
-- Server: lancet/servers/linux-synthetic.c. `spin`, `process_req` and the handling of the events;
--   Calls has the system calls with `setnonblocking` and `epoll_ctl_add`, Setup the set-up of a
--   thread, its loop, and `main`.
-- Manager: lancet/agents/manager.c. Wire has the messages of lancet/inc/lancet/coord_proto.h as
--   sequences of fields, State the file's variables with those of lancet/agents/stats.c and of the
--   configuration that it works on, Reply the replies with the statistics, Manager the reading of a
--   message, the handling of each and the loop, Socket the listening socket and `manager_run`.
--   Laws and Latency say what a report holds, Reading what the bytes of a message come to, Frame
--   what a reply leaves as it is. Protocol puts the manager and the threads together: a step is a
--   message that is answered or a recording of one thread, and Safety and Collecting say what
--   holds in every state reached.
--
-- Parameters, bounds and fuel. A C array is a function on indices with its bound where the code
-- relies on one. Thread-local variables are fields of a state record that the operations take and
-- return. What the system calls, the clock, the random draws and `should_measure()` answer is an
-- input of each round, so that the theorems hold for any answers. A run is a list of rounds.
-- `pick_conn` tries ten times, as in the code. The loop of the memcached protocol runs on the
-- buffer's length as fuel, which is enough as each round counts 40 bytes; the loop over coalesced
-- requests on the distance of tail and head, which is enough as each round raises the tail; the
-- sending loop of the NIC agent on the requests that its connections have room for.
-- The loop over the targets runs on one more than the bytes of the option, which is enough as each
-- target takes a byte; the server spins on fuel that a theorem compares with the clock; the loop of
-- the statistic `ks` on the number of entries, which is enough as
-- each round passes one. Doubles, with libm and atof, are a record of operations of which nothing is
-- assumed; qsort is a function of which a theorem assumes what it is documented to do; getopt gives
-- the list of options. malloc and calloc succeed for a size that is not negative.
--
-- The manager's clock, the results of its calls of read and writev, and what its local variables
-- hold before they are set are an input of each round. The threads and the manager are interleaved
-- in steps of one message and of one recording: what a thread records while the manager is in the
-- middle of a message is not modelled, nor are accesses to a variable at the same time. The
-- threads that `main` creates register, in some order, before the first message.
--
-- Not modelled: the printing of messages, the clocks of lancet/inc/lancet/misc.h, and
-- the affinity and the seeds of threads beyond the results of the calls. The coordinator and the scripts
-- are not C code.
pub mod Base
pub mod Timespec
pub mod Stats
pub mod Timestamping
pub mod AppProto
pub mod Tcp
pub mod Rand
pub mod Agent
pub mod Server
pub mod Manager
