-- ===== src/Lib.antt =====
-- A model of the load-testing tool zakuro, with proofs.
--
-- The program starts virtual clients that connect to an SFU, watches each connection, and judges
-- the run. The parts modelled here:
--
-- - Lifecycle (zakuro/src/connection_lifecycle.rs): the record of one connection, from the attempt
--   to its end. Lifecycle.Types has the data, Lifecycle.Ops the methods of `ConnectionLifecycle`
--   under their own names, Lifecycle.History the sequences of calls that its handlers make.
--   Lifecycle.Judge and Lifecycle.Stall are about `judge` and `is_stalled`.
-- - Observer (zakuro/src/media_observer.rs): `MediaObserver::observe`, which compares the counters
--   of each statistics sample with the ones before and feeds the lifecycle. The loop over the
--   elements is `observe_entries`, the reading of an element `read_entry`.
-- - Stats (zakuro-core/src/stats.rs): the events of the clients, `StatsSnapshot::apply`
--   (`apply_snapshot`), `OutcomeTotals::apply` (`apply_totals`), `OutcomeTotals::summary`, and the
--   loop of `StatsCollector::aggregator` over the events that it receives.
-- - Threshold (zakuro/src/threshold.rs): `evaluate`, which turns a summary into a verdict.
-- - Channel (zakuro/src/data_channel.rs): Channel.Config is `parse_data_channels`, Channel.Message
--   the generator, the seed, the sizes and `build_message`, Channel.Bytes the buffer that it fills,
--   and Channel.Sender the loop `run_messaging`, one pass of which is `send_turn`.
-- - Scenario (zakuro/src/scenario.rs): `ScenarioPlayer`. What happens in one pass of the loop of
--   `run_until_disconnect` is a `Moment`, what it does an `Effect`.
-- - Client (zakuro/src/virtual_client.rs): the loop `run` of one client. One pass of the loop is
--   `turn`; what the network, the timers and the cancellation decide in it is an `Attempt`. At the
--   end of a connection `write_connection_lifecycle` judges the lifecycle, and the events go to the
--   statistics.
-- - WtH2 (zakuro-moq/src/moq_client/wt_h2.rs): the receive side of `Driver`, with the operations of
--   `WtSession` as a parameter, the record `Wt`. `handle` takes one event of the session or one
--   command of the application (`Command::Consumed`, `Command::StopRead`). WtH2.Opens is
--   `pump_opens`, the queue of requests to open a stream, over the record `Opener`. The sending
--   side is left out but for the marks that a stream's sending direction has ended.
-- - Moq (zakuro-moq/src/moq_client/session.rs): `Publisher`, with the MOQT library's `Session`, its
--   encoders and the connection as parameters (the record `Moqt`, and the record `Io` for what the
--   connection and the clock answer in one call). Moq.Ops and Moq.Send are its methods under their
--   own names, Moq.Run the events of a session as one publisher sees them (`run`, `drain_events`),
--   Moq.Receive the receiver's side by the draft, against which the wire is read. Moq.Incoming has the
--   receive counters and the check of payloads. A panic is an error of its own.
-- - Argv (zakuro/src/args.rs, zakuro-moq/src/args.rs): `split_cli_argv`, `dedupe_argv_last_wins`, which
--   both programs have, over the table of flags, and `merge_argv`. Texts are lists of code points.
-- - Wav (zakuro/src/wav_reader.rs): `WavReader`. Wav.Parse is `parse_wav`, Wav.Ops the rest;
--   Wav.Parse.Chunks has the layout of a file of chunks.
-- - Y4m (zakuro/src/y4m_reader.rs): Y4m.Ops is `get_frame` and what it calls, on a reader whose header
--   is parsed; Y4m.Frames and Y4m.Turn have the layout of a file of frames, against which it is read.
-- - Ice (zakuro/src/ice_server.rs): Ice.Ops has the URLs, `select_url` and `configure_ice_server_urls`,
--   with the texts of IP addresses (the record `Ip`) and the resolver as parameters; the cache of the
--   process is passed on from call to call.
-- - Base has what the parts share; Tests has runs on concrete inputs.
--
-- Times and durations are numbers of nanoseconds. A `u32` that the code increments with `+= 1`
-- wraps at 2^32, as in the release profile; a saturating addition stops at 2^32 - 1. A hash map is
-- an association list in which the first pair of a key counts. JSON values (the crate nojson) and
-- `f64` are parameters, the records `Json` and `Float`; `IsFloat` and `IsRounding` state what is used
-- of the documented behaviour of floats. A byte is a number below 256, and a function that may panic
-- returns `none` for it or an error of its own. The loops run over lists of entries, events, attempts
-- or turns, and a scenario that has come to the end of the list is still waiting. Fuel is used in two
-- loops: the one over the chunks of a WAV file, where one more than the length of the file is enough,
-- as each turn moves on by eight bytes at least, and the one over the frames of its samples, where the
-- number of samples is enough.
--
-- Not modelled: tasks, channels and sleeping (a channel with no room is a Boolean of the attempt),
-- log lines, the row that is written to DuckDB at the end of a connection, the texts of threshold
-- violations, the periodic reporter of the statistics, and the other parts of the repository.
pub mod Base
pub mod Lifecycle
pub mod Observer
pub mod Stats
pub mod Threshold
pub mod Channel
pub mod Scenario
pub mod Client
pub mod WtH2
pub mod Moq
pub mod Argv
pub mod Wav
pub mod Ice
pub mod Y4m
pub mod Tests
