-- ===== src/Lib.antt =====
-- invest_view collects ticks, news and disclosures of the Korean stock market, builds five-minute
-- bars, snapshots and signals from them, and serves these to a web page. This library models the
-- parts in Python that decide whether data is lost, counted twice or misplaced.
--
-- How the parts interact. services/kis_ingestion subscribes symbols at the broker's WebSocket and
-- writes every tick to Kafka. services/tick_persistence reads that topic in two tasks joined by a
-- bounded queue: the batches are validated, inserted into Postgres, counted in a ledger and added
-- to bars; the Kafka offsets are committed only after the handler returned. services/ai_signal has
-- consumers of events, each with a handler in one database transaction, and calls language models
-- through routes whose health it watches. services/alert_service reads alerts from Kafka, notes a
-- pending notification for every watcher of the symbol, and pushes it to the user's WebSockets.
--
-- The files and the code they model. Names are the source's in this library's spelling; an
-- exception is a value (an option, a result or `false` beside the state that it leaves), and what
-- the network, a database, a clock or another package answers is an argument.
-- - Common and its children: lists, integers, dicts (association lists in insertion order) and
--   sets (lists without repetitions), with the lemmas that the parts share.
-- - TickPersistence/Bar: `BarState` and `_normalize_tick_key` of
--   services/tick_persistence/src/tick_persistence/aggregation/ohlc.py. `assign_tick` holds the
--   assignments of `add_tick`, `ensure_invariants` its check. Datetimes are seconds of the KST
--   wall clock.
-- - TickPersistence/Aggregator: `FiveMinuteAggregator` of the same file. Bars are objects that the
--   mapping and the list of final bars share, so they live on a heap: `heap` and `next`. An
--   aggregator's state is its record, and each method is the function of its name;
--   `record_tick`, `settle`, `close_prior` and `close_due` are parts of methods.
-- - TickPersistence/Ledger: observability/reconciliation.py, and the two functions
--   `_record_reconciliation` of handler.py and kafka/consumer.py that fill it.
-- - TickPersistence/Consumer: kafka/consumer.py. `poll_batch` is a round of `_run_poll_loop`,
--   `dispatch` a round of `_run_dispatch_loop`, `on_revoke` the rebalance callback; the committed
--   offsets are kept in `commits`.
-- - TickPersistence/EventId: event_id.py.
-- - TickPersistence/Handler: handler.py, the split of a batch into valid and quarantined messages,
--   what is recorded of it, and the latest tick of each symbol. Handler/Validate is
--   `_validate_message`, Handler/Batch is `handle_batch` with the hydration of bars and the update
--   of the aggregator; a record `Database` says what the transaction's statements answer, and
--   Handler/Load rebuilds a bar from bronze rows, as `load_bar_state` of repository/metrics.py does.
-- - KisIngestion/Pool: services/kis_ingestion/src/kis_ingestion/subscription_pool.py.
-- - KisIngestion/Connection: connection_manager.py beside it. Connection/Response reads the answers
--   to control requests, Connection/Tracking follows the pending requests, Connection/Sequence the
--   numbers of the ticks, Connection/Iterate is `__anext__` with `_handle_message` over a list of
--   events. `sent` lists what went out on the socket.
-- - KisIngestion/Parser: raw_parser.py, over texts as lists of code points.
-- - KisIngestion/Tokens: token_manager.py and approval_key_manager.py. A step is what one caller does
--   between two awaits; the lock is a flag of the state.
-- - KisIngestion/MarketSession: market_session.py.
-- - KisIngestion/RateLimiter: poller/rate_limiter.py; the loop of `acquire` is a recursion over the
--   readings of the clock.
-- - AiSignal/ConsumerLoop: services/ai_signal/src/ai_signal/consumers/frame.py.
-- - AiSignal/RouteHealth: llm/routing.py, its class `RouteHealth`, with the errors of llm/port.py.
-- - AiSignal/Fallback: llm/fallback.py. A step is given with the readings of the clock and the
--   answer of its model; `call_model`, `fail` and `succeed` are parts of `attempt`.
-- - AiSignal/Outbox: outbox/relay.py, the rounds of the relay over the rows of the outbox table.
-- - AiSignal/Cache: llm/cache.py, `CachingPort` over the store in memory.
-- - AiSignal/Moves: moves/sink.py, `MoveSink`, with signal_requests.py.
-- - AiSignal/SignalWorker: signals/worker.py, with the candidate range of signals/move.py.
-- - KisIngestion/News: poller/news.py, `NewsPoller`; `Row` is a row of a page with what it parses to.
-- - AlertService/Registry, AlertService/Pusher: ws/registry.py and ws/pusher.py of
--   services/alert_service/src/alert_service. AlertService/Notifications: the statements of
--   repository/notifications.py over the table as a dict by user and alert.
-- - AlertService/Consumer: kafka/consumer.py, a round of each task. AlertService/PriceResolution:
--   api/price_resolution.py.
--
-- Bounds and fuel. No definition runs on fuel: loops recur over the lists that they walk, over the
-- attempts that are left (`reconnect_from`, `handle_from`), over the records that are left
-- (`handle_records`), or over the readings of the clock (`acquire`, where one sleep is shown to be
-- enough). Python's integers are unbounded, so are these. Floats (periods, delays) are natural
-- numbers of a small unit, and rounding is left out.
--
-- What is not modelled. Of the modelled services: the SQL of the repositories but for the
-- notifications and the outbox, metrics, logging, Avro, HTTP and sockets, start-up and
-- configuration; the deserializer and the broker are arguments. Of ai_signal the prompts and
-- the generation of signals, the judgement of documents, the replay and the adapters of the models; of alert_service
-- the agent and the routes; of event_pattern_persistence everything but the consumer that it shares
-- with alert_service. Outside the library: services/stream_detection_java, the web page,
-- infrastructure, schemas, experiments and scripts, which are other languages, configuration or
-- offline work.
pub mod Common
pub mod TickPersistence
pub mod KisIngestion
pub mod AiSignal
pub mod AlertService
