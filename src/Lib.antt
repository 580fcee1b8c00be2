-- ===== src/Lib.antt =====
-- hootty: a terminal session that outlives its terminal. A supervisor runs a program behind a
-- pseudo-terminal, records its output, keeps an emulator of its screen and serves attached clients
-- over a socket; `hoot attach` is such a client.
--
-- The parts, and the files that model them (paths from the repository's root):
--   Recorder       recorder.go: Recorder (NewRecorder, Write, RecordResize, Close) as functions on a
--                  state record with the file in it, FrameDecoder in Recorder/Decoder, the format as
--                  data in Recorder/Frames, the invariant in Recorder/Flush, histories of operations
--                  in Recorder/Timeline and Recorder/Whole. Recorder/Export has ReadOutputEvents and
--                  WriteAsciicastJSONL, with the encoder of a line as a parameter.
--   Stripper       vtquery_stripper.go: the filter between a session's output and an attached
--                  terminal. One function per case of `feed`; the recognisers are in Stripper/Query,
--                  the grammar of queries that they are compared with in Stripper/Grammar and
--                  Stripper/OscGrammar, the invariant in Stripper/Strips.
--   PrimaryFilter  vtprimary_filter.go: the filter in front of the mirror of the primary screen, and
--                  a reading of the stream as tokens in PrimaryFilter/Tokens.
--   Wire           internal/attachwire/wire.go: WriteFrame, ReadFrame and ParsePrefixKey.
--   Chord          cmd/hoot/attach_fsm.go: the keys and the detach chord of the client.
--   AttachSet      attach.go: the clients' sizes. AttachSet/World adds the PTY and what each client
--                  was told.
--   Registry       attach_registry.go: the attachments with their ids, and their mirror in
--                  state.json. Add and Remove are a locked part and an update behind it.
--   EventBus       eventbus.go: the events of a session and their subscribers.
--   Restorer       cmd/hoot/attach_restorer.go: what the client observes of the output and writes on
--                  its way out. Restorer/Pieces reads the output as pieces; Restorer/Reset is a
--                  terminal that reads what Cleanup writes.
--   Pty            pty_libghostty.go: the LibghosttyPTY on a state record. Pty has the actions of the
--                  dispatcher, Pty/Requests the exported requests, Pty/Split the cut of a snapshot,
--                  Pty/Routes and Pty/Streaming the handlers of pty_libghostty_routes.go. The
--                  emulator is a record of operations, a parameter.
--   AttachHandler  attach_handler.go: serveOne from the client's Hello to every deferred call, on
--                  the states of Pty, AttachSet and Registry.
--   AttachClient   cmd/hoot/attach.go and title.go: the client's sizes, title and connection state.
--                  AttachClient/ConnectLoop has runConnectLoop, Backoff has waitBackoff, ServerLoop
--                  has runServerLoop and the status line.
--   Spawn          cmd/hoot/env_override.go, mergeEnv of spawn.go, sanitizeChildEnv of service.go and
--                  splitCmd of serve_spawn.go: what a new session is started with.
--   Io, Base       what the code uses of Go's os, io and encoding/binary, and shared lemmas.
-- One round of the Pty's reader gives a chunk of output to the Recorder, the emulator, the
-- PrimaryFilter and every subscriber, each behind its own Stripper; AttachHandler reads a client's
-- Wire frames, writes its input to the Pty and tells AttachSet and Registry of it and of its size;
-- AttachSet resizes the Pty. On the other side AttachClient reads the server's Wire frames, shows
-- them and feeds them to the Restorer, and Chord turns the keys into input and commands.
--
-- Conventions. A byte is a number; an integer of w bits is a number whose wrap-around is written
-- out. A `mu.Lock` makes an operation one step. Time is an argument of the operation that reads the
-- clock. A write takes every byte or, where the file has a limited room, falls short and fails.
--
-- Fuel. bridge_loop gets gap / (2 ^ 32 - 1) + 2 rounds, and a round takes 2 ^ 32 - 1 ms off the gap
-- or closes it; chunk_loop gets one round more than there are bytes, and a round takes a byte at
-- least; next_frame, all_frames and run_loop get one round more than there are bytes of input, and
-- a round reads a byte at least; the same holds of client_read_loop and run_server_loop, and of
-- transcode_loop, which starts behind the first frame; wait_loop counts the seconds of its delay;
-- decimal gets n + 1 rounds, and a round divides by ten.
--
-- Not modelled: the inside of the emulator (libghostty, a C library), processes and signals, the
-- HTTP upgrades, the goroutines and the heartbeat of runSession, the file system beyond one file
-- written at its end, the encoding of JSON, the vendored shortid, the session's life cycle and its
-- store, the remote bootstrap, and the flags of the commands. The live output reaches a client
-- through another goroutine than the answers to its frames; the model has each of the two in order
-- and not how they interleave. The sends of AttachSet stand in one step with
-- the operation that causes them, although the code makes them after it has released its lock.
pub mod AttachClient
pub mod AttachHandler
pub mod AttachSet
pub mod Base
pub mod Chord
pub mod EventBus
pub mod Io
pub mod PrimaryFilter
pub mod Pty
pub mod Recorder
pub mod Registry
pub mod Restorer
pub mod Spawn
pub mod Stripper
pub mod Wire
