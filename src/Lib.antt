-- ===== src/Lib.antt =====
-- smb1client: the connection, the wire, the tokens and the calls of an SMB1 client, modelled and proved.
--
-- The program sends SMB1 commands over one TCP connection. A command becomes a message (src/wire), is
-- framed by four NetBIOS bytes, and waits in a table of requests under a 16-bit multiplex id
-- (src/connection/table.rs) until the messages that answer it have arrived or its deadlines have
-- passed. The reply of a transaction comes in several messages, which src/connection/reassembly.rs
-- puts together. One task (src/connection/actor.rs) reads and writes the socket, admits requests and
-- measures the server's silence. A session begins with an exchange of SPNEGO tokens (src/auth/spnego.rs),
-- and a listing walks the entries of a reply (src/wire/find.rs). A remote procedure call sends units over
-- a pipe (src/rpc/pdu.rs), whose stubs are in NDR (src/rpc/ndr.rs). Paths that a caller gives are held to
-- a policy (src/unc.rs) before any of this.
--
-- Files and the code that they model:
--   Base, Base/*: tests, lists, results, bytes, and the map and the ordered set that the table uses.
--   Status: src/status.rs, the statuses that the code matches.
--   Wire/Error, Wire/Message: src/wire/mod.rs. `parse`, `words`, `byte_area`, `byte_area_to_end`,
--     `expect_words`, `message`, `frame` and `body` keep their names.
--   Wire/Netbios: src/wire/netbios.rs. Wire/Header: src/wire/header.rs. Wire/Andx: src/wire/andx.rs.
--   Wire/Offsets: src/wire/offsets.rs, `ByteArea` and `block_at`.
--   Wire/Transaction: `TransactionResponse::decode` of src/wire/transaction.rs.
--   Wire/Find: `walk_entries` of src/wire/find.rs.
--   Wire/Binrw: what the binrw crate reads and writes, a parameter of the model.
--   Connection/Coverage, Connection/Track, Connection/Assembly: the three types of
--     src/connection/reassembly.rs, a state record each and one function per method.
--   Connection/Error: the errors and the reply of src/connection/mod.rs.
--   Connection/Limits: the admission limit and the chunk sizes of src/connection/mod.rs.
--   Connection/Entry, Connection/Table: a row and the table of src/connection/table.rs. A method that
--     changes the table returns the new one, its result and the list of what it told.
--   Connection/Request: what a handle sends the actor, of src/connection/mod.rs.
--   Connection/Reader: `FrameReader` of src/connection/actor.rs. What one read delivers is an argument.
--   Connection/Actor, Connection/Actor/Pump: the `Actor` of src/connection/actor.rs, one function per
--     method; an `Event` is what a branch of the `select` produces, `handle` the match on it, and
--     `Reach` the actors that rounds of the loop come to, with those rounds. `Delivers` is what the
--     socket keeps to. `closes_in_row` of Connection/Actor/Turns counts closes from the rounds alone.
--   Auth/Spnego: src/auth/spnego.rs, under the names of the source.
--   Rpc/Pdu: the units of src/rpc/pdu.rs, and `PduStream`. Rpc/Collector: its `Collector`.
--   Rpc/Ndr: src/rpc/ndr.rs.
--   Unc: `Server` and `UncPath` of src/unc.rs.
--   SharePath: `SharePath` and `escapes_share_root` of src/unc.rs, and src/path.rs.
--   The files below a component's own hold its theorems, and the files Tests their concrete runs.
--
-- Numbers are natural numbers; a cast to fewer bits is a remainder. Time is a number. A string is the
-- list of its code points. A `HashMap` is an association list, so the order in which `fail_all` tells
-- the callers, which the source leaves open, is that of the list. A reply sender and an outcome are
-- numbers, and telling one is an effect, whether or not anybody still listens.
--
-- A failed `expect` or assertion is a value: `panicked` of the connection, the step `expect_failed` of a
-- row, and none of `align_to`, whose `debug_assert!` a release build leaves out.
--
-- Fuel: `align_to` runs its loop at most as often as the alignment says, which reaches a multiple, and
-- `is_power_of_two` halves a number at most that number of times.
-- `expire` has one round for each deadline listed and each request on the wire, and one more; a round
-- takes away one or the other, so the loop ends by itself. The loop that ends `step` of the reader has
-- two rounds: after a header comes a body or a keep-alive, and these yield. The loops of `read_tlv` and
-- `response_token` have one round more than there are bytes; a round takes at least two of them. The
-- loop of `feed` has one round more than there are bytes; a unit takes at least sixteen of them. So has
-- `walk_entries`, whose entries lie at least 94 bytes apart.
--
-- Not modelled: sockets, tasks and channels (src/connection/transport.rs, and what src/connection/actor.rs
-- takes from them, which is an event of the model), the codecs of the single commands, NTLM, the RPC
-- calls and their pipe, the client's verbs, and logging.
pub mod Base
pub mod Status
pub mod Wire
pub mod Connection
pub mod SharePath
pub mod Auth
pub mod Rpc
pub mod Unc
