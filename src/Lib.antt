-- ===== src/Lib.antt =====
-- Crouton is a C++20 runtime for coroutines: a scheduler for each thread, Futures, conditions and
-- queues on which coroutines wait, and above them network protocols, of which BLIP multiplexes
-- messages over one connection. The files here model that core as executable functions, one for
-- each operation of the source, and prove what makes the parts correct.
--
-- How the parts fit together. A coroutine that has to wait gives itself to the Scheduler, which
-- hands out a Suspension; whoever holds it wakes the coroutine up, from any thread. A CoCondition
-- is a list of waiting coroutines, a Blocker is one of them with a value, and a Future is a value
-- that comes later. AsyncQueue is a list with a CoCondition for the coroutine that drains it. The
-- outbox of a BLIP connection is such a queue, and the numbers in its frames are varints.
--
-- * Scheduler models src/Scheduler.cc and include/crouton/Scheduler.hh. The suspended coroutines
--   are entries (SuspensionImpl) under their handles, the ready ones a list; `_woke` and the calls
--   that stop the event loop are part of the state. A call from another thread is a step with the
--   flag `current` false.
-- * CoCondition models src/CoCondition.cc and include/crouton/CoCondition.hh. A Blocker is cut into
--   its atomic steps, and CoCondition.Race runs the two threads in every interleaving.
-- * Future models src/Future.cc and the state in include/crouton/Future.hh, whole and, in
--   Future.Race, in its atomic steps.
-- * Queue models include/crouton/Queue.hh: AsyncQueue with its three states and its generator, and
--   in Queue.Bounded the class BoundedAsyncQueue.
-- * Select models src/Select.cc and include/crouton/Select.hh; the sources are ISelectables that call
--   back once after they have been enabled.
-- * Varint models src/support/Varint.cc, over bytes and 64-bit numbers.
-- * Framer models src/io/Framer.cc: messages over a stream, each after its length as a varint. The
--   stream is a parameter, with `readNoCopy` as include/crouton/io/IStream.hh describes it.
-- * Blip models io/blip: the outgoing messages and their outbox (src/io/blip/MessageOut.cc,
--   include/crouton/io/blip/Message.hh and Protocol.hh) and in Blip.Io the connection
--   (src/io/blip/BLIPIO.cc, include/crouton/io/blip/BLIPIO.hh), which uses Queue and Varint. A
--   message is made by Blip.Builder (src/io/blip/MessageBuilder.cc), cut into frames by
--   Blip.Outgoing (nextFrameToSend), put together again by Blip.Incoming (receivedFrame of
--   src/io/blip/Message.cc) and read by Blip.Properties; Blip.Frames has the frames of the
--   connection, and Blip.Codec what they go through (src/io/blip/Codec.cc). The compression and
--   the CRC32 are parameters. Blip.Reply and Blip.Response follow the frames of a response.
-- * Stream models the reads of src/io/IStream.cc (read, readExactly, readString, readUntil) over an
--   interface with the laws that include/crouton/io/IStream.hh documents. It uses Strings.
-- * Http models src/io/HTTPParser.cc, src/io/HTTPHandler.cc and their headers: the headers of a
--   message in Http, the parser in Http.Parser, with the callbacks of llhttp as a list of events,
--   and in Http.Handler the routes and the responses of a server. It uses Strings and Url.
--   Http.Client has the header fields that src/io/HTTPConnection.cc sends with a request.
-- * WebSocket models src/io/WebSocket.cc and include/crouton/io/WebSocket.hh: the socket, and in
--   WebSocket.Connect the handshake over Http, whose request goes out through Http.Client. A copy of
--   the framing of uWebSockets, src/io/WebSocketProtocol.hh, is a parameter, as are SHA-1 and
--   base64.
-- * LinkedList models include/crouton/util/LinkedList.hh over a memory of links, and Relation
--   include/crouton/util/Relation.hh, whose one-to-many relation is such a list.
-- * Strings models src/support/StringUtils.cc and StringUtils.hh, and Url the classes in
--   src/io/URL.cc and include/crouton/io/URL.hh, which use it; so does Blip.Properties. The parser
--   in URL.cc, a copy of tlsuv code, is a parameter.
-- * Common holds the Boolean tests, lists, errors, bits and maps that the others share.
--
-- Conventions. What the source raises by `Error::raise` is an error value, and so is a
-- `precondition` or an `assert` that fails, since it ends the program. A pointer or a coroutine
-- handle is a number. Effects on others (a wake-up, a callback, an answer) are appended to a
-- history in the state, in the order in which they happen.
--
-- Bounds and fuel. The loop that reads a varint counts down from kMaxSize, 10, as the source's
-- does; the one that writes it recurses on the number, which shrinks. The loop that looks for the
-- place of an urgent message recurses on its index. The loop of Framer::receiveMessages has fuel,
-- one unit for each round; a round takes a message out of the buffer or a byte out of the stream,
-- and its theorem gives as much. The loops that write a message into a frame and that look a
-- property up have fuel, one more than there are bytes, of which each round takes one at least, and
-- so does queryValueForKey. replaceStringInPlace has fuel, and ends for a substring that is not
-- empty; the loops over the links of a list have fuel as an argument, the loop of IStream::read has
-- one unit of fuel more than there is room, those of readString and readUntil one more than there are
-- bytes to come, that of entireBody three more than there are reads, and the fuel of Codec::writeAll
-- is an argument, as the codec is a parameter.
--
-- Not modelled: the memory order of the atomics (every interleaving of their steps is taken
-- instead), coroutine frames and their destruction, the event loops and sockets of the platforms,
-- TLS, logging, compression and the vendored parsers; of the other parts, what the HTTP client
-- does besides the fields of a request, Generator, PubSub and Actor.
pub mod Common
pub mod Blip
pub mod CoCondition
pub mod Framer
pub mod Future
pub mod Http
pub mod LinkedList
pub mod Queue
pub mod Relation
pub mod Scheduler
pub mod Select
pub mod Stream
pub mod Strings
pub mod Url
pub mod Varint
pub mod WebSocket
