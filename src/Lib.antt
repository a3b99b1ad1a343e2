-- ===== src/Lib.antt =====
-- dep_srpc, a small RPC library of C++ headers over asio: a model of its core and the theorems that
-- make it correct. Paths below start at the repository's root; most are under include/srpc/common,
-- which is left out where a path starts with one of its folders.
--
-- The parts and how they interact. A transport (transport/async/stream.h for streams,
-- transport/async/udp.h for datagrams) writes queued messages to a socket and hands received bytes
-- to a delegate. The message delegate (transport/delegates/message.h) cuts the bytes into messages
-- at the prefixes that a size policy writes (sizepack/varint.h, sizepack/fixint.h; sizepack/none.h
-- writes none), and the stream delegate (transport/delegates/stream.h) reports them piece by piece.
-- The binary protocol (protocol/binary.h) is a message delegate that checks each message's checksum
-- (hash/crc32.h), takes its tag off, and puts prefixes in front of what is sent. zigzag.h maps
-- signed numbers to unsigned ones. The UDP acceptor (include/srpc/server/acceptor/async/udp.h)
-- makes a client of each endpoint that a datagram transport hears, and the connector
-- (include/srpc/client/connector/async/impl/templ.h) makes transports that connect. Timers
-- (timers/periodical.h) call handlers again and again, and the protobuf controller
-- (protobuf/controller.h) runs closures on a cancellation. Observers (observers/base.h with the
-- subscriptions of observers/subscription.h and observers/scoped-subscription.h) tell users of
-- events. The receiving side of a connection joins the reads of the transport
-- (transport/async/base.h) with the delegate and the protocol on it, and a listener
-- (lib/server/listener) takes clients from an acceptor, for TCP that of
-- include/srpc/server/acceptor/async/tcp.h. An RPC channel (protobuf/channel.h) has flags, and a
-- factory (factory.h) producers by name. The tunnel of tst puts it to use. Answers wait for their
-- readers in queues found by key (queues/condition.h), and a cache (cache/simple.h, cache/shared.h)
-- keeps values for use again.
--
-- Which file models what. Functions keep the names of the source.
--   Base              shared names: tests and lists over native numbers, binary digits
--   SizePack          Policy is the interface of a size policy, and what its clients rely on
--                     (IsPrefix, IsCodec); Varint, Fixint, Absent and ZigZag are the four headers
--   Hash              Hasher is hash/interface.h; Crc32 is hash/crc32.h, its table in Crc32.Table
--   Delegate.Message  transport/delegates/message.h over any size policy; the state is the list
--                     of bytes not yet cut, and the virtual functions are events
--   Observers.Base    base::impl and operator ( ); Observers.Subscription the handles of a
--                     connection. While a slot runs it may connect and disconnect (Traits.exec), and so may
--                     other threads between its test and its call
--   Queues            Trait is queues/traits, Condition is queues/condition.h: a heap of slots that
--                     handles point into, and the map from keys to handles
--   Cache             cache/simple.h and cache/shared.h
--   Delegate.Stream   transport/delegates/stream.h
--   Protocol.Binary   protocol/binary.h over any size policy, tag policy and hash: Receive is
--                     on_message, Send the prefixes, and RoundTrip joins both with the message
--                     delegate, for the protocol without tags
--   Details.List      details/list.h as nodes in memory that pointers join; its theorems say which list
--                     each object stands for. The observers and queues use such lists
--   Transport.Datagram  transport/async/udp.h: its queue, its receives and its closing
--   Acceptor.Udp      the acceptor with its map of clients (Acceptor.Udp.Clients) and the handlers
--                     posted to the strand; the transport's operations are Transport.Datagram's, and
--                     the clients' buffers go through Cache
--   Session           reading and closing of transport/async/base.h and stream.h under the message
--                     delegate and protocol/binary.h: Receiving is what frames lead to, Closing how it
--                     ends, and Pipeline has the writes of Transport.Stream on the other side
--   Acceptor.Interface, Acceptor.Tcp  the acceptor's interface and the TCP acceptor
--   Listener          lib/server/listener: base.h over that interface, with tcp.cpp
--   Factory           factory.h
--   Connector         the connector's template; the TCP and UDP ones are instances of it
--   Timers.Periodical timers/periodical.h, and the call of timers/once.h
--   Rpc               Controller is protobuf/controller.h and protobuf/closure-holder.h, Channel is
--                     protobuf/channel.h
--   Tunnel            tst, the tunnel of network devices on the library: Point is async-reader.hpp,
--                     Packets how packets are packed and taken (options.h, client.cpp), and Server
--                     the clients of server.cpp
--   Transport.Stream  the write queue of transport/async/stream.h and the closing of
--                     transport/async/base.h
--
-- Numbers. Sizes and ids are natural numbers; a w-bit value is a natural number below 2 ^ w, and
-- shifts and complements keep the wrap-around written out. Bytes are numbers; a theorem that needs
-- them below 256 says so.
--
-- Loops. They are structural but for three that run on fuel. The message delegate's and the stream
-- delegate's get one more than the bytes there are, which is enough because each round takes a byte
-- at least. The sum of a length and its prefix is one of 64 bits, as in the source: where it wraps
-- the model has no result, and theorems that promise one ask for less than 2 ^ 63 bytes and for a
-- validate_length and a policy that take no length from 2 ^ 63 on. The loop of details/list.h's clear gets as much as its caller names; the number of
-- nodes and one more is enough.
--
-- Concurrency. An operation that holds a mutex from end to end is one step, and a history is a list
-- of such steps in the order in which the mutexes let them happen. The periodical timer's handler is
-- two steps, as it lets its mutex go between its test and the next wait. The handlers of a transport run
-- on its strand one at a time; the socket's completions are steps with an error flag and a byte
-- count that the history chooses.
--
-- Not modelled: sockets, timers, threads, allocation and the standard library's containers, whose
-- behaviour is written out as lists; the heap functions of the priority queue trait are arguments.
-- Of the transports and the connector opening and setting up sockets is left out, and an endpoint
-- is a type with its port. The services and stubs only pass on to protobuf, and result.h is a pair
-- with its accessors: they are outside. Of tst the opening of devices, the options and the start of
-- both programs are left out.
pub mod Acceptor
pub mod Base
pub mod Cache
pub mod Connector
pub mod Delegate
pub mod Details
pub mod Factory
pub mod Hash
pub mod Listener
pub mod Observers
pub mod Protocol
pub mod Queues
pub mod Rpc
pub mod Session
pub mod SizePack
pub mod Timers
pub mod Transport
pub mod Tunnel
