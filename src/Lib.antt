-- ===== src/Lib.antt =====
-- The Go bridge of flutter_pion_bridge (go/internal/pionserver): a server that keeps WebRTC objects of
-- the pion library behind string handles and answers the requests of Dart clients.
--
-- The parts and how they interact. A session (WebSocket or in-process) has two queues of frames; its
-- reader decodes a frame and hands the message to the handler. The handler looks handles up in the
-- registry, which every session shares, and calls pion. `dc:send` hands its payload to the queue of
-- the data channel, whose goroutine sends it and answers later. A sweep of the registry reaps what
-- nobody used. Trace slots name the counters of a channel.
--
-- Types.antt: go/internal/pionserver/types.go; `Value` is `interface{}` as the decoder fills it.
-- Convert.antt: `toInt` of settings_engine.go, `toUint64` and `toUint16` of handler.go. Integers are
--   unbounded with the wrap-around written out; what Go leaves open for floats is an argument.
-- Trace.antt: `DCIdx` and `ReleaseDC` of trace.go; Trace/Counters.antt: its counters and the goroutine of
--   `StartTracing`, as a transition system: a step is one atomic access.
-- DcSend.antt: dcsend.go and its users in handler.go, as a transition system. A step is one atomic
--   action: a send, a receive, a poll, or a section under the mutex, in any order.
-- Registry.antt: registry.go up to `Delete`; Registry/Cleanup.antt: `Cleanup`, with what other calls
--   do between its sections. Any other function is one section under `r.mu`. The recursion of
--   `collectLocked` is on fuel, one more than the entries of `children`: a level of the cascade takes
--   an entry out, so it is enough for any maps. The walks to the root have one more than the entries
--   of `parent`, which is enough where no child has a child.
-- Session.antt: frame_session.go and `connWriter` of server.go, as a transition system.
-- Settings.antt: `applySettingsEngine`, an engine being the list of the calls made on it. Media.antt:
--   `buildMediaEngine`, with the codecs registered in order. What pion's own checks return is an
--   argument.
-- Handler.antt: the handler's state, its profiles and helpers, and the notification of hooks.go;
--   Handler/Create.antt: `handleInit` and `handlePCCreate`; Handler/Negotiate.antt: the other requests
--   on a PeerConnection; Handler/Channels.antt: `handlePCCreateDc`, `dc:*` and `resource:delete`;
--   Handler/Dispatch.antt: `HandleMessage` and `processFrame`; Handler/Events.antt: the callbacks;
--   Handler/Detached.antt: `readDetached`, on fuel, a round of the loop for each unit. Pion.antt: what
--   they use of pion, a record over a state of any type. Handler/Pool.antt: the pool of messages and the
--   recovery from any panic. Elsewhere the only panic is that of Go's `make` for a queue that is too deep,
--   `make_panics`, an argument. The goroutine and the select of `dc:send` are
--   in DcSend.antt, which takes over where `handle_dc_send` hands the payload to the queue.
-- Mobile.antt: `Start` and `Stop` of go/mobile/mobile.go. Cshared.antt: the exported functions of
--   go/cshared/cshared.go over the sessions of Session.antt, in any interleaving.
-- Connection.antt: `handleWebSocket` of server.go, as a transition system: whether a call of the network
--   succeeds is open. Once the connection is closed a write fails, while a read may still return what is
--   in the buffer of the library.
-- Handler/Life.antt: the steps of the whole server, over all sessions. A step is a frame, a callback or a
--   critical section of a sweep. The handlers of two sessions do not overlap there; their registry calls
--   do in Registry/Reachable.antt.
-- Registry/Abstract.antt: the table that registry.go promises, as functions of the handles.
--
-- Time is a number of nanoseconds and an argument. A pion object is its identity, and what pion does
-- is an argument. A lock is held for the whole of the function that takes it. The peak
-- of the queue depth, logging, the network side of server.go, and the entry points in
-- go/embed and go/main.go are not modelled: they are diagnostics, I/O or glue. go/pion-sctp-patched is
-- a copy of another project.
mod Prelude
pub mod Types
pub mod Convert
pub mod Trace
pub mod Registry
pub mod DcSend
pub mod Session
mod Result
pub mod Settings
pub mod Media
pub mod Pion
pub mod Handler
pub mod Mobile
pub mod Cshared
pub mod Connection
