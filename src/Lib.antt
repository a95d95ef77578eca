-- ===== src/Lib.antt =====
-- An IRC client in Go: parser/ holds the connection, reads lines into messages and events and runs
-- the protocol's handlers, which answer through the connection; client/ subscribes to the events and
-- keeps a picture of the connection: who it is, which channels it is in and who is there, what the
-- server announced.
--
-- How a line travels, and where it is modelled:
-- - parser/connection.go: Connection, its state and its two directions: a round of the read loop
--   (`read_round`, `handle_message`), and `send_raw` with a round of the write loop, which flushes what
--   SendRaw has handed to the writer. What is written and what is emitted are lists in
--   its state. Connection/Lifecycle has its operations in any order as a relation.
-- - parser/message.go, ParseMessage and String: Message (Message/Parse, Message/Print, Message/Tags
--   for the tags and their escapes). A string of Go is a list of bytes, a map an association list, a
--   value with an error a Result. An offset into the line is a number, as in the code.
-- - parser/events.go, DetermineEventType and CreateEventFromMessage: Event (Event/Classify,
--   Event/Create). `event.Data` is a data type with a constructor for each type that the code stores
--   there; a panic is `none`.
-- - client/client.go, the handlers: Client (Client/Names for the numerics, NAMES and the
--   subscriptions). `handle_event` gives the handler of an event the state and returns the new state
--   and the events that the handler emits.
-- - client/state.go: State, and ServerInfo with the parsers of ISUPPORT tokens.
-- - parser/types.go: Modes and Channel. The three owners of mode lists run the same loops, which
--   stand in Modes once. A pointer to a channel or a user that is looked up and changed is written
--   back into the map that holds it: each stands in one map only.
-- - parser/parser.go: Parser, the commands of a user, with the echo of a text. parser/errors.go and
--   parser/connection_config.go: Errors and Config.
-- - parser/registration.go: Registration, the handler that registers the client; Registration/Final
--   has its steps as a relation.
-- - parser/capabilities.go: Capabilities, the handler of CAP; Capabilities/Negotiation has the
--   operations that send lines. The goroutine that waits for the listeners is a Waiter.
-- - parser/ping.go: Ping. parser/factory.go: Factory, the handlers on the bus that they share.
-- - parser/sasl.go: Sasl, the handler with the mechanism PLAIN. What it sends and emits is a list of
--   outputs in its state (Output), as for the other handlers. Sasl/Handlers has the handlers of its
--   events; Sasl/Final their steps as a relation.
-- - parser/eventbus.go: EventBus, the lists of handlers with their ids; EventBus/Queue, the queue
--   between Emit and the event loop as a relation on its states, with at most 100 events, and with
--   the handlers that emit in the loop itself.
-- - All handlers together: Session, in which the handlers that parser/factory.go makes run on their
--   bus. A message of the server puts its events into the queue, a round of the event loop hands the
--   oldest one to its subscribers, whose events join the queue, and the goroutine that ends the
--   negotiation takes its signals; Session/Turns also has the timers that run out. Session/Login is a
--   whole login, Session/Plain one without SASL, and in Session/Split the server lists its
--   capabilities in two lines.
-- - client/client.go, the accessors and the commands: Client/Facade. The accessors of the other
--   components stand with them or in a module Accessors.
-- Base holds what the files share: the native numbers, Boolean tests, `Eq` as the interface of keys,
-- `Dict` with the laws of a map, lists measured by native numbers. Text models what the code takes
-- from Go's packages strings, unicode/utf8 and strconv in their documented behaviour.
--
-- Parameters: `unicode_upper` is unicode.ToUpper on a rune; Env also has the clock and time.Parse;
-- Network has the dialling of an address and the errors of the writer. In the handlers `send_error`
-- is the error that the connection returns for a line, which may depend on what went before;
-- in Sasl `encode64` and `decode64` are encoding/base64, and `describe` is the text of an error.
-- A World of Session has all of these. The events raw_outgoing, to which no handler subscribes, do
-- not stand in its queue.
--
-- Fuel: the loop over SASL chunks has the length of its data, as every round takes a byte or more
-- when the maximal size is positive. All other loops are by recursion on their list.
--
-- Not modelled: locks and goroutines (a handler is one step, and so are Connect and Disconnect, whose
-- intermediate states are steps of Connection/Lifecycle), logging, what a writer passes on by itself
-- when its buffer is full or in a Flush that fails, the deadlines of the socket; other SASL
-- mechanisms than PLAIN; Wait and what only waits; example.go, which only calls the client.
-- Go visits a map in no fixed order: a model has the order of its association list.
pub mod Base
pub mod Text
pub mod Message
pub mod Modes
pub mod Channel
pub mod ServerInfo
pub mod Session
pub mod Event
pub mod State
pub mod Client
pub mod Errors
pub mod Config
pub mod Connection
pub mod Parser
pub mod Output
pub mod Sasl
pub mod EventBus
pub mod Registration
pub mod Capabilities
pub mod Ping
pub mod Factory
