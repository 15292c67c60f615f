-- ===== src/Lib.antt =====
-- Verification of the core of this repository: the bencode codec, its streams and events, the
-- identifiers and nodes of the DHT, its routing table, node lookups, tokens, messages, sessions and
-- bootstrap, the event bus with its processors and adapters, the beacon with its sinks, the network
-- buffer, addresses, sockets and the HTTP client.
--
-- How the parts interact. A `RoutingTable` holds `KBucket`s of `DHTNode`s; a node's bucket is the
-- length of the prefix that its `NodeID` shares with the local one, found through the exclusive-or
-- distance, by which `get_closest_nodes` also sorts. Messages travel as bencode: a `BencodeValue`
-- is encoded to bytes and decoded from them, or written to a stream and read from it. A
-- `NodeLookup` asks the nodes that it knows for the nodes nearest to a target, three at a time, and
-- keeps what they answer in the order of the distance. A `TokenManager` gives a peer the token that
-- it must show to announce itself, made of the peer's `Endpoint` and a secret that rotates. An
-- `EventBus` hands published events to the handlers subscribed to their class, and processors
-- subscribe to it. The `BencodeEventProcessor` encodes and decodes on request, by events that it
-- publishes and should hear. A `DHTSession` receives datagrams, has `DHTMessageFactory` make
-- messages of them, puts those who ask into its routing table, and answers a ping. The `HTTPClient`
-- reads a URL, connects to the address that it names, writes a request, reads the response and
-- follows its redirects; buffers carry the bytes. An `EventAdapter` holds the tokens of its
-- subscriptions to a bus. A `Beacon` gives each log message to its `BeaconSink`s, which write it to
-- the console, to a file with its archives, or to the event bus. A `Bootstrap` counts the lookups
-- that it has running, and waits until none is.
--
-- Files, and the code that each is about (paths from the repository's root):
--   Base, Base/*            shared notation, lists, byte strings; C++ exceptions as results; the
--                           standard library's conversions between numbers and text (Base/Text);
--                           laws of the exclusive or (Base/Xor)
--   Bencode/Value           modules/bencode/src/bencode_value.cpp: `Value` is the variant, `Items` a
--                           std::vector of values, `Fields` a std::map in the order of its keys.
--                           The overloads of `get`, `set` and `remove` are `get_key`, `get_index`
--                           and so on
--   Bencode/Encoder         modules/bencode/src/bencode_encoder.cpp
--   Bencode/Decoder         modules/bencode/src/bencode_decoder.cpp
--   Bencode/Stream          modules/bencode/src/bencode_stream.cpp: a stream is its remaining bytes
--                           with its failbit
--   Bencode/EventProcessor  modules/bencode/src/bencode_event_processor.cpp: promises are identifiers
--   Types/NodeId            modules/types/src/node_id.cpp: the operators are `eq`, `lt`, ...
--   Types/InfoHash          modules/types/src/info_hash.cpp
--   Types/Node              modules/types/src/endpoint.cpp and dht_node.cpp: data and comparisons
--   Types/Endpoint          modules/types/src/endpoint.cpp: construction and text
--   Types/TableEntry        modules/types/src/dht_routing_table_entry.cpp
--   Dht/Mutex               std::mutex and std::lock_guard, for one thread
--   Dht/KBucket             modules/dht/src/k_bucket.cpp
--   Dht/RoutingTable        modules/dht/src/routing_table.cpp
--   Dht/NodeLookup          modules/dht/src/node_lookup.cpp. Responses and timeouts are events of a
--                           step relation, in any order; `sent` records the queries that are sent
--   Dht/TokenManager        modules/dht/src/token_manager.cpp, and the tokens of
--                           modules/types/src/dht_token.cpp
--   Dht/Message             modules/dht/src/dht_message.cpp and dht_message_factory.cpp;
--                           Dht/Message/Parsed says what the factory makes of a dictionary
--   Dht/Session             modules/dht/src/dht_session.cpp: `sent` records the datagrams
--   Event/Bus               modules/event/src/event_bus.cpp; Event/Bus/Log states what it promises
--   Event/Filter            modules/event/include/bitscrape/event/event_filter.hpp
--   Event/Processor         modules/event/src/event_processor.cpp
--   Event/AsyncProcessor    modules/event/src/async_event_processor.cpp
--   Network/Buffer          modules/network/src/buffer.cpp: the bytes of a buffer
--   Event/Adapter           modules/event/include/bitscrape/event/event_adapter.hpp
--   Dht/Bootstrap           modules/dht/src/bootstrap.cpp: the threads' steps in any order
--   Beacon/Severity         modules/types/src/beacon_types.cpp
--   Beacon/Filter           modules/beacon/src/beacon_sink.cpp, and the line of a message
--   Beacon/FileSink         modules/beacon/src/file_sink.cpp: file k is the archive ".k", file 0 the log
--   Beacon/Log              modules/beacon/src/beacon.cpp, console_sink.cpp and event_sink.cpp
--   Network/Socket          modules/network/src/socket.cpp: who owns which descriptor
--   Network/Address         modules/network/src/address.cpp
--   Network/Url             modules/network/src/http_client.cpp: URLComponents::parse
--   Network/Response        the same file: parse_response
--   Network/Request         the same file: the bytes of a request
--   Network/Client          the same file: HTTPClient
--   */Tests                 runs on concrete input, and instances of the theorems
--
-- How state and errors are modelled. A method of an object is a function from its state to an
-- `Outcome` with a result and the next state. The clock's reading is an argument, and so are random
-- bytes. An exception is a value of `Result`, which also has `undefined` for undefined behaviour,
-- `negative_char` for that of std::isdigit on a negative char, and `out_of_fuel`. Bytes and sizes are natural numbers, with the ranges stated where they matter;
-- the decoder's test of a string's length is made modulo 2 ^ 64, as in the code.
--
-- Locks. The classes of the DHT module lock a std::mutex in each method. To lock it again in the
-- same thread is undefined by the standard, and usually waits for ever. `Relock` is that choice, a
-- parameter of every method: `blocks`, as the code's std::mutex, or `passes`, which is what a
-- recursive mutex would do. Each theorem says for which of the two it holds. The event module's methods lock a mutex for single
-- accesses only, and these locks are left out.
--
-- Fuel and rounds. The decoder's functions take fuel, and `decode` gives them 2 * n + 1 for n
-- bytes: a list or dictionary costs two calls and at least one byte. The streams' `read` takes as
-- much. A worker thread of the asynchronous processor is a sequence of rounds, each a step on its
-- own. `grow` makes at most index + 1 buckets. `emit` (std::to_string) makes a round for each digit
-- of a number n, which n + 1 covers. The HTTP client's `request` has a round for each redirect that
-- it has left, and one for the first request; the loop that receives a response has a round for each
-- chunk, which is enough where the server ends its answer in fewer. A run of the Bootstrap is a
-- sequence of steps, in any order of its threads. The loop that renames archives recurses on its
-- counter.
--
-- Parameters. `NodeID::is_bit_set` is called by the routing table and declared nowhere in the
-- repository; it is an argument, and the theorems hold for every function in its place. So is the
-- number `DHTToken::SIZE`, which the token manager uses and nothing declares. The messages call
-- members of BencodeValue that the repository does not declare (dictionary_contains, dictionary_get
-- and the like): they are the interface `Dictionary`, with what the messages rely on as the
-- hypotheses `IsDictionary`. The system's inet_pton is an argument of the addresses, given the
-- text up to its first NUL, and
-- `RefusesNames` says that it reads an IPv4 address of digits and dots only; endpoints use
-- whether it accepts an address, and `RefusesBracket` says that no IPv4 address begins with '['.
-- What the network does with the n-th request of the HTTP client is an argument, any function. So
-- is what the system does with log files (`Disk`: which names it refuses to open, remove and rename, and where it puts the
-- position of an opened file), with `Grants` for a system that refuses nothing; and which
-- descriptor it gives to a socket, with `IsFresh`: one that is not open. The formatted time of a
-- log line is an argument, and so is what the handlers of the event bus do with a logged event.
--
-- Not modelled: the `_async` members, which run the same code on another thread; random identifiers
-- and system calls; the messages other than ping; what the bootstrap sends and finds, and the
-- session's find_nodes and find_peers, which wait for a node lookup; waiting for an empty queue;
-- the printing of events and messages as text; the sending and receiving of sockets, the resolution
-- of names, NAT traversal, which is a placeholder, torrent metadata, whose parsing is one, and the
-- applications. The network event processor uses an event type and a static member of EventBus that
-- the repository does not declare. An allocation below the largest size is taken to succeed, and so
-- is a write to an open file. A char is signed.
pub mod Base
pub mod Bencode
pub mod Types
pub mod Dht
pub mod Event
pub mod Network
pub mod Beacon
