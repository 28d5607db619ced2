-- ===== src/Lib.antt =====
-- A small key/value server in C: a TCP server that takes SET, GET, DEL and QUIT lines, over a hash
-- table in memory or in a mapped file, with its own buffers, sockets, lists, maps and strings.
--
-- The parts, bottom up, and the files that model them (paths from the repository's root):
--
-- - src/str_util.h, src/str_util.c: Str. Bytes of a C string are lists of numbers below 256; a
--   `struct slice` is null or its bytes. Str/Chars has the `str_` functions, Str/Codec the numbers
--   in text and in big endian, Str/Ip4 `ip4_str_decode` and `ip4_str_encode`, Str/Ip6
--   `ip6_str_decode`, Str/Slice the `slice_` functions. Not modelled: `ip6_str_encode`, the string
--   builder, copying helpers.
-- - src/rwbuf.h, src/rwbuf.c: Rwbuf, every operation. A record for `struct rwbuf` with its memory;
--   `size_t` arithmetic is modulo 2^64. `realloc` is a function that tells whether it succeeds.
--   Rwbuf/Valid has the invariant and the bytes that a buffer holds, Rwbuf/Space, Queue and Lines
--   what the operations do to them.
-- - src/list.h: Linked, every operation, over a memory of `next` and `prev` fields; Linked/Ring says
--   what a list is, Linked/Edits what the operations do.
-- - src/hashmap.h, src/hashmap_impl.h: Hashmap, the map with integer keys; the hash and the greatest
--   key are parameters, as they are of the macros. Not modelled: string keys.
-- - src/db.c: Db has the records and the links, Db/Loops the walks over a chain and `db_set`,
--   `db_get` and `db_del`, Db/File the check of a file, Db/Free the end of a store in memory. The
--   loop of `hash_del` and `hash_put` is one function, `walk`, that takes what the code does on a
--   match and behind the loop. Db/Chain, Db/Walk, Db/Store, Db/Relink, Db/Change, Db/Delete,
--   Db/Create and Db/Put relate a store to a map from keys to values, its view. `malloc` is a
--   parameter. The comparison of a key reads as many bytes as the key has, also past the record:
--   that memory is the parameter `beyond`, and the theorems on the view ask that the comparison
--   tells apart the records of the bucket; Db/Prefix shows what it does otherwise. Not modelled:
--   opening and mapping a file.
-- - src/sock.h, src/sock.c: Sock has the state and its flags, Sock/Fd the loops over `read`, `write`
--   and `writev`, Sock/Buffer the routines over the buffers. The kernel is a record of functions on
--   a world, so that a world is a schedule of partial reads, writes and errors; Sock/WriteLoop,
--   Sock/Sent, Sock/ReadLoop and Sock/Received state what the calls do to the bytes that have passed
--   the descriptor. Not modelled: connecting, listening, accepting, socket options.
-- - src/server.c: Server has the client and the commands, Server/Events the loops over lines and
--   events. Server/Requests is the protocol without the store and the buffers, Server/Commands
--   and Server/Serves the refinement. Not modelled: accepting clients, signals, the command line.
-- - src/dns_proto.h, src/dns_proto.c: Dns has the messages and the store of names, Dns/Name
--   `decode_name` and `encode_name` with compression pointers, Dns/Decode the decoder as a routine
--   that goes on or leaves (Cases: one routine for each type of record; Records: records, questions,
--   sections, messages), Dns/Encode the encoder as writes to a buffer, Dns/Build the calls that add
--   questions and records, Dns/Tables the names of types and classes, Dns/Query
--   a query on its way. Dns/Name/Total, Dns/Name/RoundTrip and
--   Dns/Name/Decodes are about names; Dns/Decode/Rules, Stores, Reads, Safe, Texts, Record,
--   Sections, Start and Message follow the decoder with an invariant. A member of the union `rdata` that was not written
--   last is read through the parameter `punned`. The decoder is that of `dns_msg_decode`: it loads
--   the message and writes no text. `uint16_t rd_end` wraps; the theorems on whole messages ask that
--   no length in the packet reaches behind 64 KiB (NoWrap), since the code reads outside the packet
--   otherwise. Not modelled: `dns_validate` and its texts, the texts of records.
-- - src/dns_resolv.h, src/dns_resolv.c: Resolv has the addresses of a result, `try_hostname` and
--   `try_hosts`, Resolv/Port `try_port`, Resolv/Config the loading of resolv.conf, whose lines are a
--   list. What the hosts and the services file say of a name is a function. Resolv/Results, Added,
--   Fixup and Hostname follow the array of the caller, Resolv/Digits an octet of four digits, Resolv/Config/Loops and Loaded the configuration. Not
--   modelled: the loading of hosts and services, the cache, queries over sockets.
--
-- The launcher and the namespace helpers are not modelled: they are mostly system calls. Logging is
-- output only and is left out everywhere.
--
-- Loops. A loop over memory has a number of rounds, and a loop that uses them up is `stuck`; reading
-- no record, or writing behind the buffer of a name or the strings of a record, is a `fault`. The
-- theorems say that a call is `ok`: a walk over a chain needs one more round than the chain has records, a loop over a descriptor as many as it has bytes to move, a
-- search in a map as many as the map has buckets, `decode_name` 19 more than its buffer has bytes,
-- `encode_name` as many as the name has bytes, an entry of resolv.conf as many as the line has bytes.
pub mod Prelude
pub mod Rwbuf
pub mod Db
pub mod Hashmap
pub mod Linked
pub mod Str
pub mod Sock
pub mod Server
pub mod Dns
pub mod Resolv
pub mod Tests
