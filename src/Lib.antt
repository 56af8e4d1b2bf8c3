-- ===== src/Lib.antt =====
-- Pi-to-Pi: agents on one machine exchange requests, notifications and replies over local pipes. This
-- library models, from the TypeScript sources, the parts that decide what an agent does with bytes,
-- errors, tasks and repeated requests.
--
-- The parts and how they interact. A peer's bytes arrive in chunks at a frame decoder, which gives one
-- payload for each connection. The router turns a request into a task, whose state moves along a
-- table of transitions, and waits in the queue of the routing policy until its guard lets it run. A
-- request, notification, reply or cancellation is first looked up in the deduplication store, so
-- that one that is sent again is not executed again. What goes wrong anywhere is reported to the
-- peer as a protocol error.
--
-- Files:
--   Prelude                helpers: texts as lists of UTF-16 code units, JavaScript numbers, results,
--                          lemmas on lists and Booleans.
--   Protocol/TaskState     src/protocol/task-state.ts: the states, the transition table,
--                          canTransitionTaskState (can_transition) and isTerminalTaskState
--                          (is_terminal).
--   Protocol/Json          JavaScript values as the other files read them.
--   Protocol/Errors        src/protocol/errors.ts: createProtocolError (create_protocol_error),
--                          boundedMessage, boundedDetails, sanitizeJsonValue, the retry metadata.
--   Transport/FrameCodec   src/transport/frame-codec.ts: encodeFrame (encode_frame), FrameDecoder with
--                          push and finish, decodeFrame (decode_frame).
--   Router/Dedupe          src/router/dedupe.ts: normalizedOperation. Router/Dedupe/Decisions has the
--                          records and decisions, Router/Dedupe/Store the state of
--                          RuntimeScopedDedupeStore with inspect, getRecord, reserve, prune and the
--                          timers, Router/Dedupe/Commit has release, busy, commit, admit, execute,
--                          clear and close. The other files there are proofs.
--   Router/Policy          src/router/policy.ts: the capacities that the constructor of RoutingPolicy
--                          accepts, readMonotonicNow (read_monotonic_now) and isRunnableRecord
--                          (is_runnable_record), the guard of every hand-over to an executor.
--                          Router/Policy/Queue has the state of RoutingPolicy with expire, claimRecord
--                          and dequeue, Admit has admit, Cancel the lookups, release, cancel,
--                          isRunnable and peek, Sweep the first loop of expire as it runs over
--                          indexes. The other files there are proofs.
--   Router/TaskStore       src/router/task-store.ts: TaskStore, its records, snapshots and authorization.
--                          Router/TaskStore/Transition has tryTransition and the timers, Create has
--                          createTask, Operations and Cancel the other calls. The other files there
--                          are proofs.
--   Room                   src/room.ts: normalizeProjectLabel (normalize_project_label), whose results name
--                          rooms and agents. The other files there are proofs.
--
-- How state and failure are written. A method that changes its object is a function from the state to
-- the new state and what the call returns or throws. A decoder that failed keeps its error. The
-- store's clock is a function from the number of a reading to a time, so that a call that reads the
-- clock several times may see different times; a history of the store is a list of calls and timer
-- events, each with its clock. The calls of one store do not interleave, except that `execute`
-- is a single step whose producer is given by what it does: returning a value or throwing.
-- The task store reads two clocks, given as functions from the place of a reading; what its hooks
-- are told is appended to a list of events, and hooks do not call the store back. The routing
-- policy reads its clock and its entries by the number of the reading; its callbacks return, and do
-- not call it.
--
-- Fuel. The loop of push runs on the number of bytes of its chunk: each round that goes on consumes at
-- least one byte, so that the loop is never cut short. A new handle is drawn once more than
-- there are handles in use. Sanitising stops at the depth that the code sets, and is recursive on
-- the value besides.
--
-- Parameters. `encoded_bytes`, the size of a value's JSON text, is the engine's. `validate` and
-- `parse_utc` stand for validatedRequestProjection and parseRfc3339Utc of src/protocol/validation.ts;
-- nothing is assumed of them. `Unicode` stands for the engine's NFKC with lower case and its
-- classes of characters. `Dates` stands for the engine's Date: its parsing and its
-- toISOString. The task store's authorization callback is a function of its options.
--
-- Not modelled: sockets, files and the host application, which are input and output; the texts of
-- error messages; the cloning of values, since values here are immutable; clock readings that are
-- not finite; a producer that calls its own store; listeners that the task store's signals run;
-- getRecordMetadata, which reads as getTaskHandle does; the texts and details of the routing
-- policy's errors; and the rest of src/room.ts and the files of src/router, src/discovery,
-- src/runtime and src/pi that are not named above.
pub mod Prelude
pub mod Protocol
pub mod Transport
pub mod Router
pub mod Room
