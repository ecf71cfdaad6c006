-- ===== src/Lib.antt =====
-- LexiDB, an in-memory database server: its tables, its protocol, its commands, and its client.
--
-- The server (src/server.c) reads its configuration (src/config_parser.c), waits for events on its sockets
-- (src/ev.c), reads requests from its clients, parses each (src/parser.c) into a command (src/cmd.h) and
-- runs it on the databases that it keeps: a dictionary (src/ht.c), a set (src/set.c), a queue
-- (src/queue.c) and a vector (src/vec.c) each. The reply is written by src/builder.c. The client program
-- parses the line that its user types (src/line_parser.c), and the client library (src/hilexi.c) writes
-- the request and reads the reply with the server's parser. The values of requests, replies and
-- databases are the objects of src/object.h, and their strings those of src/vstr.c.
--
-- Which file models what:
--   Base, Base/*            shared names, tests, list lemmas, integers, decimal numerals, text
--   Memory, Socket          what the allocator answers, and what the kernel answers to a read
--   Keys                    how a table compares and hashes keys (both tables' loops, `ht_hash`)
--   Chains, Buckets         the chains and the array of chains that src/ht.c and src/set.c both have;
--                           Buckets/Resize moves entries to a new array, Buckets/Store is the state that
--                           both tables keep, Buckets/Change the changes to one chain
--   Ht, HashSet             src/ht.c and src/set.c: a record of the struct's fields and a function for
--                           each operation; their children hold the invariant and the theorems, and
--                           Ht/Iter the iterator (`ht_iter_new`, `ht_iter_next`) and the loop that uses it
--   Vec, Queue              src/vec.c, with its iterator in Vec/Iter, and src/queue.c, whose nodes stand on
--                           a heap
--   Vstr                    src/vstr.c, with the buffers byte by byte
--   Object, Cmd             src/object.h, with `object_cmp` in Object/Compare, and src/cmd.h
--   Parser                  src/parser.c: Scan (bytes), Objects (`parse_object`), Commands (`parse`)
--   Builder                 src/builder.c
--   Protocol                Builder and Parser together
--   Auth                    src/auth.c
--   Ev                      src/ev.c and the calls of src/ev_epoll.c: the table of events; Ev/Select has
--                           src/ev_select.c
--   Server                  src/server.h; Server/Commands has the commands on one database,
--                           Server/Execute `execute_cmd`, Server/Connection `read_from_client` and
--                           `write_to_client`, Server/Start `add_users`, Server/Boot `server_new`,
--                           Server/Run `server_run`, Server/Clients `server_accept`,
--                           the other children the theorems
--   Clap                    src/clap.c: the command line; Clap/Help has the text of the help page,
--                           Clap/Names how a word names an argument
--   Hilexi                  src/hilexi.c: a function for each call; Hilexi/Calls lists the calls and the
--                           commands that they stand for
--   Chars                   the loops on characters of src/config_parser.c and src/line_parser.c
--   ConfigParser            src/config_parser.c; ConfigParser/Lines has the text of a configuration
--   LineParser              src/line_parser.c; LineParser/Typed and Calls have what a user types
--   Cli                     src/lexi-cli.c and src/read_line.c; Cli/Start has `main`
--   Conversation            the client program and the server together
--   Tests                   runs, and the theorems at concrete inputs
--
-- A C string or buffer is the list of its bytes. A `Parser` is the current byte and the bytes from `pos`
-- on. A chain is the list of its entries, from the slot's head. The functions that change a struct
-- return it; a result code is a value of a data type. A loop on a socket goes over the list of what the
-- kernel answers to its calls, in order.
--
-- Bounds and fuel. Sizes are natural numbers; where C computes in a size_t or uint64_t that can wrap
-- (`capacity << 1`, a parsed length) the model reduces modulo 2^64. `parse_object` takes fuel for the
-- depth of its recursion: each level of nesting takes at least a byte of the input, so the length of
-- the input and two is enough. The loop of `parse_double`, which need not end, takes fuel too, more
-- than there are bytes left. The loops of the configuration's parser take a round more than there are
-- characters, since each round reads at least one. The loop that adds the configured users takes two
-- rounds more than there are users: the iterator over an empty vector goes on for two. An fd_set ends
-- at the file 1024, FD_SETSIZE.
--
-- Parameters. `siphash` and `memcmp`'s bytes of a key stand in `KeyOps`; src/siphash.c is another
-- project's code. The C library's number conversions and calloc stand in `Libc`, `Memory` and `Heap`, the
-- rest of what a command takes from the system in `Platform`. The server's tables hold structs of a type
-- `K`: `place` gives the struct that the parser has made of an object, `value` the object of a struct.
-- What epoll_ctl answers, and the functions that handle events, are parameters of the table of events.
-- What the system answers while the server starts stands in `System`.
--
-- What the kernel and the user give to the client program stands in `World`; `main_loop` takes fuel for
-- its rounds, and one more than there are lines is enough.
--
-- Strings. Vstr has the struct and its failures; everywhere else a string is its bytes, and has the
-- memory that it needs, but for the text of the configuration's file, which is read into such a string.
--
-- Not modelled: src/sha256.c and src/siphash.c (other projects' code); opening sockets, files and logging
-- (system calls); the end of the terminal's input; freeing memory.
pub mod Base
pub mod Keys
pub mod Chains
pub mod Buckets
pub mod Memory
pub mod Ht
pub mod HashSet
pub mod Object
pub mod Cmd
pub mod Parser
pub mod Builder
pub mod Vec
pub mod Vstr
pub mod Queue
pub mod Protocol
pub mod Auth
pub mod Clap
pub mod Cli
pub mod Conversation
pub mod Ev
pub mod Socket
pub mod Server
pub mod Hilexi
pub mod Chars
pub mod ConfigParser
pub mod LineParser
mod Tests
