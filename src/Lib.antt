-- ===== src/Lib.antt =====
-- Hisohiso: end-to-end encrypted rooms in which a phone talks to agents on a machine.
--
-- The program has a command line tool with a daemon (cli/src), a browser application (app/src) and a
-- relay (server). The daemon keeps weekly schedules and runs agents, whose output it reads line by
-- line as a stream of events and reports as a status. The application decrypts the messages of a
-- room, keeps them without secret values, validates the blocks that agents send, and renders a
-- sliding window of the history.
--
-- Prelude.antt       shared names, Boolean tests, lists measured by native numbers.
-- Text.antt          strings as lists of UTF-16 code units: trim, split, join, numerals.
-- Json.antt          the values that JSON.parse makes, with the reads that the program does.
-- Cron.antt          cli/src/lib/scheduler.ts, functions: parseCron, parseDaysToken,
--                    buildCronFromArgs, computeNextRunAt.
-- Scheduler.antt     cli/src/lib/scheduler.ts, class Scheduler: load, add, pause, resume, remove,
--                    runNow, stop, arm, disarm, fireGuarded. Schedules are shared objects, so they
--                    stand on a heap; Scheduler/Reach.antt has every interleaving of calls, due
--                    timers and settling fires.
-- Turn.antt          cli/src/lib/turn-status.ts (Turn/Stream.antt) and cli/src/lib/agent-stream.ts
--                    (Turn/Runner.antt): stream lines to events, events to statuses and a result.
-- Window.antt        app/src/hooks/useMessageWindow.ts: the indices of the rendered slice.
-- Message.antt       app/src/lib/room-message.ts with the types of app/src/lib/db.ts: envelopes,
--                    redaction, display, records, the merging of echoes.
-- Blocks.antt        app/src/lib/block-validation.ts: validateBlock and sanitizeBlocksForRender.
-- Updater.antt       cli/src/lib/updater.ts: isNewerVersion, resolveAssets, stageBinary, applyUpdate,
--                    tick, over a disk with the binary and the file staged beside it.
-- Channels.antt      app/src/lib/room-grouping.ts: groupOpenChannels.
-- Hints.antt         app/src/lib/auto-approve.ts and app/src/lib/pending-knocks.ts: local values by
--                    room.
-- Lock.antt          app/src/lib/app-lock.ts: when the application locks itself.
-- Agents.antt        cli/src/daemon/agent-manager.ts, class AgentManager. Ledger.antt and Session.antt
--                    have the state of a session, Input.antt the text of a turn, Command.antt its
--                    command line, Output.antt the reply, Chat.antt the handlers and the queue,
--                    Knock.antt the admission of devices, Manager.antt the table of sessions,
--                    Restore.antt the restart. The event stream does not wait for its handlers, so
--                    each await of a handler ends a step: Queue.antt interleaves the steps of one
--                    room, Facts.antt those of the knocks. Session objects stand on a heap.
-- Storage.antt       app/src/lib/storage.ts: the list of rooms (Rooms.antt), the values of a room and
--                    the settings (Items.antt, Accessors.antt).
-- Events.antt        cli/src/lib/sse-client.ts: the refresh of the token of a subscription.
-- Control.antt       cli/src/daemon/control-server.ts: the control socket as the lock of a daemon.
-- Envelopes.antt     cli/src/lib/agent-process.ts: findBlockEnvelopes and the choice of the answer.
-- Examples.antt      runs at concrete inputs.
--
-- Bounds: the scan for the next run has the nine rounds of the source's loop; the printing of a
-- numeral n has fuel n + 1, which is more than its digits; the cutting of a reply into messages has
-- its length as fuel, and each cut takes at least one unit. Other recursion is structural. Instants
-- are natural numbers of milliseconds since 1970, so earlier ones are not covered.
--
-- Parameters: JSON.parse, the conversion of texts to numbers and to lower case (with the laws that
-- are used, in Cron/Defs.antt), the writing of numbers, and for the updater the network, the platform
-- and SHA-256. The fire function that the scheduler is given is the status with which a fire settles.
-- For the agents: the result of a decryption, the extraction of blocks from an output, the end of a
-- process, and the answers of the relay. For the storage: the colours drawn at random.
--
-- Not modelled: user interface, cryptography, network and process handling, the relay
-- (PHP), and the fields of a schedule that have one value each.
mod Prelude
pub mod Window
pub mod Text
pub mod Cron
pub mod Scheduler
pub mod Json
pub mod Turn
pub mod Message
pub mod Blocks
pub mod Updater
pub mod Channels
pub mod Agents
pub mod Storage
pub mod Events
pub mod Control
pub mod Envelopes
pub mod Hints
pub mod Lock
mod Examples
