-- ===== src/Lib.antt =====
-- SimpleTorrent, a BitTorrent client in C (SimpleTorrent/src), and what holds of it.
--
-- The parts. The main thread reads a torrent, asks the tracker for peers, and then connects to
-- them (`peer_connect`) and accepts their connections (`peer_accept`). A thread per connection
-- waits for the handshake and puts the connection into the pool of peers; a thread per peer in the
-- pool then reads its messages and handles them (`message_handler`); one more thread
-- (`request_file`) chooses pieces and peers and sends the requests. They share the global
-- variables, the pool and the file.
--
-- The files.
--   Base, with Base/Tests, Base/Lists and Base/Int: numbers, lists, and `int` with its wrap-around.
--   Words: `reverse_byte_orderi` of SimpleTorrent/src/util.c and the bytes of an `int` in memory.
--   Bitfield: `set_bit_at_index` of SimpleTorrent/src/fileio.c and `get_bit_at_index` of
--     SimpleTorrent/src/peer_wire.c; Bitfield/Laws is about both.
--   Socket: the loops `Recv` and `Send` of SimpleTorrent/src/peer_wire.c over the events of a
--     connection; Socket/Stream and Socket/Takes are about them.
--   Client: the structures of SimpleTorrent/src/btdata.h and SimpleTorrent/src/mytorrent.h, the
--     global variables as one record, what comes from the system and from sha1.c as the record
--     `Extern`, and the monad of the functions that read and change the state.
--   Socket/Line: `recvline` of SimpleTorrent/src/util.c, a round of its loop for each byte of the line
--     and one for the newline.
--   FileIo: SimpleTorrent/src/fileio.c, the blocks of the file (FileIo/Blocks), its pieces
--     (FileIo/Pieces), the bitfield of the pieces with the right hash (FileIo/Verify), how the file is
--     made (FileIo/Create), and the transfers of whole pieces (FileIo/Whole).
--   Pool: SimpleTorrent/src/peers_pool.c; Pool/Names and Pool/Nodes are about addresses and nodes,
--     and Pool/Scan is a search that nothing calls.
--   Wire: SimpleTorrent/src/peer_wire.c in parts. Wire/Send writes the messages, Wire/Handlers
--     handles them, Wire/Messages reads them (`message_handler`), Wire/Handshake makes connections,
--     Wire/Choose chooses piece and peer, Wire/Request is `request_a_piece` and `request_file`.
--     Their children are about them. What a function leaves alone of the shared state is said in the
--     modules named Frame, over Client/Frame, and what it keeps of the arrays and the pool in those
--     named Shape, over Client/Preserves and Pool/Shape. Wire/Handshake/Threads is about the threads
--     that shake hands, Wire/Request/Safe about the one that requests, and Wire/Connections puts all
--     threads together as one step relation. Wire/Handlers/Bitfield is about the message of this name,
--     over Wire/Handlers/Walk (the walk along the pieces) and Wire/Handlers/Quiet (what its handler
--     does to the arrays).
--   Start: `init_pieces_state_arr` and `init_pieces_num_in_peers` of
--     SimpleTorrent/src/process_tracker_response.c; Start/States is about the first one.
--   Decimal and Text: what the code uses of the C library's numbers and strings.
--   Bencode: SimpleTorrent/src/bencode.c. Bencode/Values has the values of the protocol and their
--     text, Bencode/Steps and Bencode/RoundTrip read it back, Bencode/Malformed is about other texts,
--     and Bencode/Free is `be_str_len`.
--   Tracker: Tracker/Request is SimpleTorrent/src/make_tracker_request.c, with Tracker/Request/Written,
--     Tracker/Request/Escape and Tracker/Request/Bounds; Tracker/Http and Tracker/Response are the two
--     halves of SimpleTorrent/src/process_tracker_response.c, the HTTP answer and the data in it, with the
--     children Tracker/Http/Reading, Tracker/Http/Header, Tracker/Http/Answer and
--     Tracker/Response/Compact; Tracker/Announce is SimpleTorrent/src/parse_announce_url.c, with
--     Tracker/Announce/Url; Tracker/Run is the outcome of a function.
--   Metainfo: SimpleTorrent/src/parsetorrentfile.c, with Metainfo/SingleFile and Metainfo/Rounds.
--   Main: the main thread in SimpleTorrent/src/mytorrent.c. Main/Setup is `main` up to its loop;
--     the loop is in Main, with Main/Prepare, Main/Rounds (the loop as a step relation) and
--     Main/Shape.
--   Tests, with Tests/Peers, Tests/Formats and Tests/Startup: runs on small inputs, and the theorems at such inputs.
--
-- The model. A function that uses the global variables is a function from the state to an outcome:
-- a value and the next state, or a fault where the code accesses memory outside an object.
-- Pointers to peers are numbers into a heap. A thread runs from one release of its mutex to the
-- next as one step, and a round of the walk along the pool in the end game, which holds none, as
-- one; what the network does is a list of events for `Recv` (bytes, a signal, an
-- error) and one for `Send`. `int` is an integer with its wrap-around written out; sizes of a
-- torrent are natural numbers. `message_loop` has fuel: one unit for each round, and each round
-- takes at least one byte off the connection. The bencode decoder has fuel too, a unit for each call
-- and each round; more than the length of a text that was written by the protocol's rules is enough.
-- The loops over an HTTP header take a byte at least in each round, and have as many rounds as there
-- are bytes. `request_file` is a function from the stage at which its thread stands to the next one.
--
-- Not modelled. SHA-1 (sha1.c, another project's code), the address of a socket and the creation
-- of threads are parameters. malloc is taken not to fail, but what it gives is not initialised.
-- Printing is left out. Arguments, files, sockets and names are what the record `Host` says; the
-- loop around accept and the handler of signals are left out, and so are torrents of a negative
-- size, `be_free`, the wrappers of system calls in util.c and `recvlinef`, a call of vsscanf.
-- simpletorrent.c, an earlier main program that the Makefile does not build, shutdown.c and
-- get_local_ip.c are not modelled. A write behind the end of a block that the code always makes is
-- counted, not a fault (`overruns`), in the metainfo and the announce URL. `free` is not modelled: a
-- node or a list of the tracker that is no longer there keeps its content for who still points to it.
pub mod Base
pub mod Words
pub mod Bitfield
pub mod Socket
pub mod Client
pub mod FileIo
pub mod Pool
pub mod Wire
pub mod Start
pub mod Decimal
pub mod Bencode
pub mod Text
pub mod Tracker
pub mod Metainfo
pub mod Main
pub mod Tests
