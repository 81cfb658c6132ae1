-- ===== src/Lib.antt =====
-- tonghuashun collects Level-2 stock metrics: a web service takes requests for symbols, a queue keeps
-- one task for each symbol, and a single runner takes the tasks in order, drives the market app and
-- records the values or captures that it read. This library models both stores of the queue
-- (level2_service/queue.py, classes InMemoryStreams and RedisStreamsStore), the records that they share
-- with the other parts (level2_service/models.py), the calendar that gives the day on which an app
-- session expires (level2_service/workday_calendar.py), the administrator sessions of the web service
-- (level2_service/security.py), and some parts beside the queue: the broker of market subscriptions, the
-- source and the monitor of the fund flow, the phases of the market, the market codes and the client of
-- the device broker.
--
-- Parts and files
--   Base, Dict           shared names, Boolean tests and lists over the native numbers, and Python dicts
--                        as association lists in the order of insertion
--   Models               level2_service/models.py: TaskRecord and the statuses, in Models.Metrics the
--                        metrics and normalized_intraday_series, in Models.Public as_public
--   Queue                the state of InMemoryStreams (Streams: _tasks, _fifo, _events, _aliases,
--                        _deployment_lease) and its helpers
--   Queue.Canonical      _canonical_task
--   Queue.Submit         enqueue, find_by_symbol, submit_or_refresh, _refresh_locked
--   Queue.Claim          next_runnable, next_queued
--   Queue.Position       resolve_task_id, get, queue_position
--   Queue.Recover        recover_running, has_running_task
--   Queue.Results        transition, complete_capture, complete_result, complete_market_snapshot
--   Queue.Leases         acquire_, renew_ and status of the deployment lease
--   Queue.Maintenance    bind_deployment_acceptance and _remove_maintenance_task_locked
--   Queue.Retry          requeue_waiting, retry_failed, refresh_task
--   Queue.Merge          deduplicate_by_symbol and _restore_expired_task
--   Queue.Cleanup        cleanup, events_after, release_deployment_lease
--   Redis                the keys of RedisStreamsStore (RedisStore), its counter of active tasks and its
--                        event stream; an Event and a payload are what their JSON holds
--   Redis.Submit         enqueue, submit_or_refresh and the scripts ENQUEUE, SUBMIT_OR_REFRESH and
--                        REFRESH_TASK
--   Redis.Claim          next_runnable, next_queued and the script CLAIM
--   Redis.Find           resolve_task_id, get, find_by_symbol, queue_position
--   Redis.Leases         the deployment lease and its scripts
--   Redis.Binding        bind_deployment_acceptance and its script
--   Redis.Removal        release_deployment_lease and its script
--   Redis.Recover        recover_running
--   Redis.Results        PERSIST_EVENT, transition and the complete_ methods
--   Redis.Retry          requeue_waiting, retry_failed, refresh_task
--   Redis.Events         events_after, events_after_cursor
--   Redis.Merge          deduplicate_by_symbol
--   Redis.Cleanup        cleanup
--   Redis.Codec          _serialize and _deserialize
--   Redis.Counter        the counter of active tasks against the payloads
--   Redis.Refines        the steps of the Redis store against those of InMemoryStreams
--   Broker               MarketDataBroker of level2_service/market_data.py: subscriptions and the
--                        cache; Broker.Events has _publish and next_event, Broker.Polling has refresh
--                        and poll_due
--   Devices              DeviceLifecycleClient of level2_service/device_lifecycle.py: its vocabulary and
--                        making; Devices.Replies reads the documents, Devices.Calls has the calls
--   Calendar             ChinaLegalWorkdayCalendar
--   Security             AdminSessionManager
--   FundFlow             the rows of the fund flow; FundFlow.Source is DatabaseFirstFundFlowSource of
--                        level2_service/database_first_fund_flow.py, FundFlow.Monitor is
--                        FundFlowHistoryMonitor of level2_service/fund_flow_history.py
--   Phases               MarketPhaseResolver, LocalTradingCalendar and the two windows of
--                        level2_service/market_data.py
--   Symbols              market_code_for_symbol of level2_service/parsed_values.py
--   Tests                concrete runs
-- The child modules of these are named for what they prove.
--
-- A method of a class is a function from its arguments and the state to its result and the next state.
-- Most methods of the queue hold a lock from their first to their last access, so a run of the queue is
-- a sequence of such steps. get, events_after, transition and the complete_ methods take no lock; each
-- is one step too, and how their single accesses mix with other threads is not modelled.
-- An exception is an `err` beside the state at the time of the raise.
-- The tasks are mutable objects that live in the dict of tasks; a change of a task is a change of the dict
-- at its key, which is its id, as the queue only makes keys from ids (Queue.Keyed states this).
--
-- A Lua script runs on the server without an interruption and is one step. A method of the Redis store
-- reads, runs a script and reads again; it is one step too, so other clients act only between methods.
-- The members of an index set come in the order in which they were added. Server stands for what the
-- scripts see of the server: its clocks, the trimming of the stream and whether an event is written.
--
-- A refresh of the broker is two steps, before and after the source is read, since other coroutines run
-- in between. A snapshot is what the broker reads of it.
--
-- The source of the fund flow and its monitor ask objects that they are given: the answers are
-- arguments, and the calls are listed in their order.
--
-- The clocks, the SHA-256 digest, the resolution of paths, Argon2 and the HMAC signature are not part
-- of the repository: they are the parameters Clocks, Platform and Crypto. isoformat and fromisoformat
-- are the parameter TimeFormat; for the device client, json.loads, urlsplit and fromisoformat are the
-- parameter Readers. Times are natural numbers of microseconds, dates are ordinals, and texts are strings.
--
-- Bounds and fuel
--   resolve_task_id follows aliases while it sees new names: one round more than there are aliases is
--   enough, since a name is visited once (Queue.Position.Aliases); the Redis store follows aliases in
--   the same way (Redis.Find.Aliases). The loop of add_workdays is given
--   one round for each date left in the coverage and one more, and ends at the first date outside it
--   (Calendar.Counting). No theorem assumes that fuel is left.
--
-- Not modelled
--   The messages of exceptions, the JSON of the web service, payloads that another program wrote in a
--   form that cannot be read, the locks and timeouts of the broker, the RecursionError of json.loads, the
--   transports, the runner and the web routes. Reading china_workdays.json and writing the password hash
--   are file I/O.
pub mod Base
pub mod Dict
pub mod Models
pub mod Queue
pub mod Calendar
pub mod Security
pub mod FundFlow
pub mod Phases
pub mod Symbols
pub mod Redis
pub mod Broker
pub mod Devices
mod Tests
