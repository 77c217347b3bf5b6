-- ===== src/Lib.antt =====
-- Verification of Patroni: the decisions that keep a replicated PostgreSQL cluster from losing
-- acknowledged commits, and from having two leaders. Paths are those of the repository.
--
-- Patroni runs beside each PostgreSQL server. Its HA loop (patroni/ha.py) reads the cluster from a
-- distributed configuration store (patroni/dcs), races for the leader key, and, as the leader, keeps
-- `synchronous_standby_names` and the `/sync` key in step (patroni/quorum.py), from what the
-- replicas report (patroni/postgresql/sync.py).
--
-- Base: the shared names and helpers. A text is a list of character codes, case is that of ASCII
-- letters; numbers are natural numbers or integers without a bound, as Python's are; Base.Lists,
-- Base.Int, Base.Texts and Base.Rearranged carry their operations and laws.
--
-- Collections.CaseInsensitiveSet and Collections.CaseInsensitiveDict (patroni/collections.py): the
-- values of the ordered dict inside. A method that changes its object returns the new one.
--
-- Quorum (patroni/quorum.py): Quorum.State has the resolver's fields, check_invariants and the
-- transitions; Quorum.Run the generators as actions that return, change the fields, yield, and may
-- raise; Quorum.Resolver.Updates has quorum_update and sync_update, Quorum.Resolver.Phases the four
-- phases, each under its method's name without the underscores, and Quorum.Resolver.Iterate
-- _generate_transitions and __iter__. Quorum.Safety follows what an observer sees after each
-- transition; Quorum.Overlap is about the invariant, Quorum.Steady, Quorum.Factor and Quorum.Stuck
-- about where the iteration leads.
--
-- Dcs.SyncState (patroni/dcs/__init__.py): the `/sync` key, as it is written and read. JSON is read
-- into a record of its three values.
--
-- Dcs.Raft (patroni/dcs/raft.py): KVStoreTTL as the data after a log of replicated commands. Each
-- command takes one position of the log; which commands are applied, and in what order, is the
-- consensus's, and left open here. Dcs.Raft.Leader has the requests for the leader
-- key, Dcs.Raft.Limb the expiry of keys, Dcs.Raft.Watch the callbacks. Clocks are natural numbers.
--
-- Ha (patroni/ha.py): Ha.State has what the decisions read, Ha.Race _is_healthiest_node, Ha.Manual
-- the failover to a candidate and is_failover_possible, Ha.Healthiest is_healthiest_node,
-- Ha.Prepromote _process_quorum_prepromote, Ha.Multisync the other modes' steps before a promotion,
-- Ha.Replication _process_multisync_replication, as the list of the changes that it makes in order,
-- given which writes the DCS accepts and the states of replication that it reads.
-- The answers of the members' REST APIs and the order in
-- which parallel requests complete are a parameter, the record Env; where a theorem counts nodes it
-- assumes that no request is lost or doubled (Completes) and that members have different names.
--
-- Sync (patroni/postgresql/sync.py): Sync.Names the tokenizer and parser of
-- `synchronous_standby_names` and the quoting of names, with psycopg's quote_ident as a parameter;
-- Sync.Replicas the list of replicas, Sync.Handler their readiness and current_state.
--
-- Async (patroni/async_executor.py): the executor and its threads as a step relation. A block under
-- the executor's lock is one step; the thread pool may start submitted runs at any time and in any
-- order.
--
-- Cycle (patroni/ha.py): run_cycle. Cycle.Exec is the monad of its methods, state with exceptions;
-- Cycle.Node has the attributes of Ha, the history of what the node did and learnt, and the record
-- World, by which PostgreSQL, pg_rewind, the watchdog, the DCS and the clock answer, each time anew,
-- and may raise. Cycle.Lock is about the leader key, Cycle.Demote demote, Cycle.Follow follow,
-- Cycle.Primary process_healthy_cluster and enforce_primary_role, Cycle.Unhealthy
-- process_unhealthy_cluster (with Ha.Healthiest's is_healthiest_node), Cycle.Startup recover and the
-- actions in progress, Cycle.Bootstrap and Cycle.Restart what their names say, Cycle.Run _run_cycle
-- and _handle_dcs_error, Cycle.Loop the cycles one after another, with the executor's runs between
-- them. A method of several branches is several definitions, and messages are constructors of
-- Message. What a call does inside PostgreSQL, and the body of an action in the executor's thread
-- other than demote, is outside; of the calls that leave the leader key and the role alone only the
-- order is kept. Cycle.Safety has what a history may hold, and a rule for each way to build a
-- method; Cycle.Demotes has the same for what a cycle must have done
-- before it returns.
--
-- Lsn (patroni/postgresql/misc.py): parse_lsn and format_lsn.
--
-- Fuel: hex_within runs on one more than the number, since each digit takes a factor of 16;
-- tokens_within runs on the length of the text, since each match takes a character; should_cascade
-- runs on a depth of recursion, which the tags of the members bound where they have no cycle
-- (Sync.Replicas.Cascade). Every other loop is by structure.
--
-- Not modelled: _process_quorum_replication, the shutdown and the REST API's requests in the HA loop, the
-- replication slots in the failsafe mode, the other clients of configuration stores, the control and
-- the configuration of PostgreSQL, the REST API, the command line, logging and process control.
pub mod Async
pub mod Base
pub mod Collections
pub mod Cycle
pub mod Dcs
pub mod Ha
pub mod Lsn
pub mod Quorum
pub mod Sync
