-- ===== src/Lib.antt =====
-- The DBSS client: an SSDB client in C++ behind a C interface. A call of `ClientImpl` builds a
-- list of strings, `Link` writes it to a socket as a packet, waits for a packet, and the client
-- reads a status and values from it. The same `Link` also understands the Redis protocol, when
-- what it receives starts with '*'.
--
-- Common: shared names, and lemmas on lists, options and Boolean tests.
-- Text: src/util/strings.h, the numbers that packets carry and `errno`. Escape is `str_escape`
--   and `str_unescape`, Trim is `trim` and its kin, Slices is `substr` and `str_slice`, Binary
--   is the bits and byte orders of words, Dump the text of `dump`.
-- Buffer: src/util/bytes.h and src/util/bytes.cpp. A buffer is its capacity, the offset of its
--   data, and the data. The parameter `Memory` is `realloc`, by the sizes that it grants, and what
--   is read behind the end of a vector; `int` and `size_t` arithmetic on sizes is written out. A
--   buffer doubles or more at each growth, so 31 rounds of `reserve` are enough. Capacity, Append,
--   Room and Steady are the theorems. Order is the comparison of `Bytes`, Records is
--   `read_record`, Decode is `Decoder`, which nothing here calls, and Stats the text of `stats`.
-- Redis: src/net/link_redis.h and src/net/link_redis.cpp. Convert is `convert_req`, with
--   Convert/Bounds and Convert/Ranges on the ranges of sorted sets and Convert/Commands on commands that have a
--   counterpart in the client, Request is `parse_req` and `recv_req`, Reply is
--   `send_resp`. Request/Wire writes requests and Reply/Format replies as the protocol has them;
--   Request/Whole is about any request, Request/Mget and Reply/Mget
--   about `mget`, Reply/Answers and Reply/Commands about the replies to the commands, Reply/Malformed about the
--   responses that are no reply; Request/Einval is about an EINVAL that is left in `errno`.
-- Link: src/net/link.h and src/net/link.cpp. Parse is the loop of `recv` on the bytes, Receive
--   is `recv`, Send is `send`, Socket is `read`, `write`, `flush` and `response`. The kernel is
--   two lists of events, one for each call of `read` and one for each call of `write`. The loops
--   run on fuel: the bytes for the parsers, the events for `flush`, bytes and events for
--   `response`; a result of its own says that it was used up, and the theorems exclude it. Calls
--   has the overloads of `send` and `request`. Connect is `connect`, `listen`, `accept` and the
--   destructor, against a kernel that is the open descriptors and the answers of its next calls;
--   the parameter `Numbering` picks the number of a new descriptor, one that is not open. Served
--   is a link that serves a Redis client, Served/Pipeline many requests in a row, where what the
--   server does with a request is a parameter, and Served/Commands one command of Redis.
-- Client: src/SSDB_impl.h and src/SSDB_impl.cpp, `request` and the commands in Kv, Hash, Zset
--   and Queue, as steps on the client and its world. Exchange, Ends and Replies are the theorems
--   on one request, Conversation is about many of them, Overloads about `Link::request`. Program
--   has the commands as data, and programs of them, each command chosen by the results before it:
--   on the client, on the abstract server of Conversation, and on a list of replies.
-- Dbss: src/DBSS.cc. A method is a call of the client and what it does with the result in the
--   caller's memory: `Outcome` tells a write behind a block from a return. Values has the
--   methods with a number or one value, Lists those with a `vec_t`; Interface has the C
--   functions around them. Connect is the constructor, `connect` and the destructor, Life is
--   what runs on a new object.
--   Allocations are taken to succeed. Copies is about the loop that fills a `vec_t`, Maps about
--   the arrays of pairs, Methods about whole methods.
-- Demo: src/demo.cpp, `main` as a program of commands that prints and asserts, block by block.
--   What `connect` returns and the values of `ret` and `score` at the start are its arguments.
-- Tests: runs on concrete inputs.
--
-- A byte is a number; `Bytes`, `std::string` and a region of a buffer are lists of them, and a
-- `Bytes` into a buffer is the bytes that it shows. Numbers are natural numbers and ℤ, with the
-- wrap-around of the machine's integers written out where the code can reach it.
--
-- Not modelled: the functions on floating-point numbers, the handling of signals, the time of day,
-- what the DBSS methods print, the Lua files, and the test programs of `net`, which hand a
-- procedure to a framework that is not in the repository.
pub mod Common
pub mod Text
pub mod Buffer
pub mod Redis
pub mod Link
pub mod Client
pub mod Dbss
pub mod Tests
pub mod Demo
