-- ===== src/Lib.antt =====
-- A model of the C core of ChisLink: the protocol between a Game Boy Advance and the device on its link
-- port, and the parts of the SDK that stand on it, with the theorems that make them correct.
--
-- The program's parts, and the files here that model them:
--
-- Proto (common/chislink_proto/include/chislink/proto.h, src/proto.c): the frame header of four 32-bit words,
--   clp_make_word and its accessors, and the little-endian loads and stores. Proto.Frame and Proto.Bytes hold
--   the round trips, Proto.Codes the constants.
-- Crc32 (common/chislink_proto/src/crc32.c): the table, which is filled on first use, and the checksum.
--   Crc32.Reference has the bit-by-bit checksum it is compared with.
-- Crc32Chunks (gba/sdk/src/crc32_chunks.c): checksums of equal blocks of data that comes in pieces.
-- Stream (gba/sdk/src/stream.c, include/chislink/stream.h): the ring of slots between the transport, which
--   acquires a span and commits it, and the application, which peeks and releases. Stream.Fifo is the queue
--   of pieces that the ring is an implementation of; Stream.Pending says when a ring is valid and which queue
--   it stands for.
-- Client (gba/sdk/src/client.c): a connection's state and sequence numbers. Handshake has the commands of the
--   same file that exchange words: cl_client_hello, _poll, _request_caps and _set_poll_ticks.
-- Wire (gba/sdk/src/wire.c): command frames, the search for the response, payloads.
-- RamMap (gba/sdk/src/ram_map.c): the key-value store at the other end, as commands over Wire.
-- GameDb (common/chislink_proto/src/gamedb.c): the search for a game's save type in a sorted table.
-- CartFile (gba/sdk/src/cart_file.c): the cartridge as files, a table of four handles over a driver. CartFile
--   has the data, CartFile.Open the paths, metadata, opening and closing, CartFile.Access the rest;
--   CartFile.Runs has sequences of calls, CartFile.Writing and CartFile.Opened which slots a call writes.
-- FileFront (gba/sdk/src/file.c): the table of backends over which files are opened, and the handles. FileFront
--   has the tables and the choice of a backend, FileFront.Handles the operations on files, FileFront.Fitting says
--   which backends fit a path.
-- Copy (gba/sdk/src/copy.c, include/chislink/copy.h): the copy loop between a source and a sink, whose
--   callbacks are parameters. Copy.Laws says what a copy expects of them.
-- StreamClient (gba/sdk/src/stream_client.c): the commands that open, fill, drain, move and close a stream, with
--   the ring of Stream on this side and the frames of Wire between. Here and in StreamClient.Control are the
--   operations; StreamClient.Reach has the steps that a stream can make, StreamClient.Contents the bytes that
--   a ring has pending in its buffer, StreamClient.Arriving the payloads of the other end.
-- Tests: the theorems at concrete inputs. Common: shared types, lists and machine words.
--
-- How code corresponds to definitions. A function of the source is a definition of its name without the
-- prefix (cl_stream_producer_commit_at is Stream.producer_commit_at); a loop is a helper by clauses. State
-- that the source changes through a pointer is taken and returned. Structures are records passed by value, so
-- the tests for a NULL structure are not there; a pointer to bytes that may be NULL is an Option, a NULL array
-- of slots is the empty list, and NULL as an address is 0. Negative results are integers; a function whose
-- caller reads nothing else on a failure returns a sum. Numbers are natural numbers, with the wrap-around of
-- their C type written out where the source can wrap; size_t has 32 bits, as on the console.
--
-- The other end of the link is a parameter: Peer gives its answer to a word from all the words sent before, so
-- it can be any deterministic device. The cartridge driver is a parameter too: its callbacks pass a state of
-- any type through, and so do the callbacks of a copy and those of a file backend. The transport's fast read and the
-- payload writer are parameters of the stream client. Where it is said which bytes arrive, the fast read
-- is assumed to do on success what the loop over words does. Where the source reads its variable for the response
-- although the exchange failed, what the variable holds is a parameter, named junk.
--
-- A transport that is NULL is refused by the functions that test for it. cl_wire_read_payload, and with it the
-- discarding of a payload, calls it without a test, which is undefined in C: the definitions go on as with a
-- transport there.
--
-- Fuel. Crc32Chunks.update_loop has as much as there are bytes left, and every round takes at least one; the
-- theorems on it conclude that a result is there. GameDb.search_loop has one more than there are entries, and
-- each round shortens the range; running out of fuel and an empty range give the same result, and the theorem
-- on found entries shows that fuel is never what ends the search. The search for a response makes the nine
-- rounds of the source. Copy.deliver and StreamClient.drain have as many rounds as bytes, of which each takes one
-- at least; Copy.copy_loop takes its fuel as an argument, and more than the source's bytes is enough. The theorems
-- on them conclude that a result is there.
--
-- Not modelled: the transport, the cartridge hardware, the rest of the file front end (metadata,
-- directories, copies, the POSIX layer), file checksums, the storage, network and Bluetooth clients, and
-- everything outside common/ and gba/sdk (firmware, emulators, servers, examples, tools). Of the modelled
-- files the getters, names for printing and plain aliases are left out.
pub mod Common
pub mod Proto
pub mod Crc32
pub mod Crc32Chunks
pub mod Stream
pub mod Client
pub mod Wire
pub mod RamMap
pub mod Handshake
pub mod GameDb
pub mod CartFile
pub mod Copy
pub mod FileFront
pub mod StreamClient
pub mod Tests
