-- ===== src/Lib.antt =====
-- A model of Aegis, a peer-to-peer VPN: the parts that frame, queue, encrypt, route and check what
-- goes over the network, the sessions that they share, and the transfer of files.
--
-- The program's parts, the files that model them and how the two correspond:
--   Wire         include/aegis/protocol/wire.hpp: `WireReader` and `WireWriter`, the bounds-checked
--                cursors of all codecs. A span is a list of bytes with an offset.
--   Header       include/aegis/packet/header.hpp: the packet header, its codec, and the sizes that
--                padding gives.
--   Replay       src/session/session.cpp: `check_replay` and `update_replay`, the window over the
--                sequence numbers of a session. `receive` is what `decrypt_message` does with them.
--   SendQueue    include/aegis/transport/send_queue.hpp: the bounded queue of datagrams, control and
--                data, of which the UDP transport sends.
--   HandshakeV2  src/session/handshake_v2.cpp: the frames around the two Noise messages, and the
--                prologue.
--   Session      src/session/session.cpp and include/aegis/session/session.hpp: the class
--                `SessionManager`. Session.antt has its state and what its mutex guards,
--                Session/Handshake.antt the handlers of handshakes, Session/Message.antt encryption
--                and decryption.
--   RateLimiter  src/transport/handshake_rate_limiter.cpp: how many handshakes are processed per window.
--   PathProbe    src/routing/path_probe.cpp: the probes of routes, and those that wait for an answer.
--   Mtu          include/aegis/packet/mtu.hpp: the size of an inner packet that a network carries.
--   Packet       src/packet/packet.cpp: the checks of an inner IPv4 packet.
--   IpAddress    include/aegis/net/ip_address.hpp: addresses and prefixes.
--   Routing      src/routing/routing.cpp: the class `RoutingEngine`, the table that an address is
--                looked up in. Routing/Search.antt is about the lookup, Routing/Table.antt and
--                Routing/Keeps.antt about what the table keeps, Routing/Probes.antt about probes.
--   FileTransfer src/file/transfer.cpp: FileTransfer.antt has the checks of names and sizes,
--                FileTransfer/Tracker.antt the chunks that a receiver has, FileTransfer/SendWindow.antt
--                the chunks that a sender has on their way, FileTransfer/Codec.antt the messages, and
--                FileTransfer/Acknowledged.antt what the receiver reports to the sender.
--   Peers        src/peer/peer.cpp: the class `PeerManager`, what is known of each peer.
--   Candidates   src/protocol/endpoint_candidate.cpp: which endpoints a peer may offer.
--   Onion        src/packet/relay.cpp: the layers that hide a packet from the relays of its path.
--   Prelude      what the others share: tests on numbers, lists, `std::map`, durations.
--
-- A function of the program is a function of the same name here. One that changes an object takes
-- the object last and returns it, behind its result if it has one. `std::optional` and the answers
-- `true` and `false` of a write are `Option`. A clock reading, what the random source draws, and what
-- a cipher or a hash computes are arguments. `SessionManager` is called from several threads, which
-- meet at its mutex: each stretch of a handler that holds the mutex is a function of its own, and
-- `Session.Steps.Run` puts such stretches behind each other in any order.
--
-- Bytes are numbers, and lists of them are as long as the program's arrays where a theorem says so.
-- A NodeID, a key or a hash is the number that its bytes spell, most significant byte first, which
-- keeps the order that the program compares by. Times are numbers of ticks since the clock's start;
-- a file says which unit it takes where the program converts between units.
-- Arithmetic wraps where the program's could; where it cannot, a comment says why. Every loop is a
-- recursion on a list or on the number of turns that are left, but for the carries of `ip_checksum`:
-- its two turns of fuel are enough for any 32-bit sum.
--
-- Not modelled: sockets, threads, files, the terminal and system calls; OpenSSL and noise-c, whose
-- results are parameters (the records `Aead`, `KeyAgreement` and `Noise`); logging; the erasure of secrets from
-- memory; and the parts of the program that are not named above, such as peer tables,
-- the messages that carry endpoint candidates, invites and the tunnel that ties the parts together.
pub mod Prelude
pub mod Wire
pub mod Header
pub mod Replay
pub mod SendQueue
pub mod HandshakeV2
pub mod Session
pub mod Candidates
pub mod FileTransfer
pub mod IpAddress
pub mod Mtu
pub mod Onion
pub mod Packet
pub mod PathProbe
pub mod Peers
pub mod RateLimiter
pub mod Routing
