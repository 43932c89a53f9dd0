-- ===== src/Link.antt =====
-- src/net/link.h and src/net/link.cpp: `Link`, one connection and its two buffers. `Parse` is the
-- packet parser of `recv`, `Receive` is `recv` itself, `Send` has `send`, `Socket` has `read`,
-- `write`, `flush` and `response` against a kernel that is a list of events, `Calls` has the
-- overloads of `send` and `request`, `Connect` opens and closes sockets, and `Served` is about a
-- link of a server.
pub mod Parse
pub mod Send
pub mod Receive
pub mod Socket
pub mod Calls
pub mod Connect
pub mod Served
use dbss.Common.{ℕ, ◌+◌, ◌*◌, Bool, false, Option, none, List, [], Bytes}
use dbss.Buffer.{Buffer, new_buffer}
use dbss.Redis.{RedisLink}

-- `MAX_PACKET_SIZE` and `ZERO_BUFFER_SIZE`.
abbrev pub max_packet_size : ℕ
max_packet_size = 32 * 1024 * 1024

abbrev pub zero_buffer_size : ℕ
zero_buffer_size = 8

-- The fields that the operations below read or write. `recv_data` holds the records by value.
pub record Link : Type 0 where
  pub noblock : Bool
  pub recv_data : List Bytes
  pub redis : Option RedisLink
  pub input : Buffer
  pub output : Buffer

-- `Link::Link(false)`, the state that `Link::connect` returns.
unfoldable pub new_link : Link
unfolding new_buffer
new_link = record {
  noblock = false;
  recv_data = [];
  redis = none;
  input = new_buffer zero_buffer_size;
  output = new_buffer zero_buffer_size;
}

-- The `int` result of an operation: -1, or a count.
pub data IoResult : Type 0 where
  failed : IoResult
  count : ℕ → IoResult
