-- ===== src/Tests.antt =====
-- Runs of the client on concrete inputs: the memory that they use, and the buffers and links that
-- they share. The modules below hold the runs.
pub mod Buffers
pub mod Sockets
pub mod Parsing
pub mod Receiving
pub mod Requests
pub mod Copying
pub mod Talking
pub mod Connecting
pub mod Texts
pub mod Replying
pub mod Serving
pub mod Converting
pub mod Mapping
pub mod Programs
use dbss.Common.{
  ℕ, ◌^◌, ◌<◌, ◌≡◌, refl, ltb, ltb→lt, lt→ltb, List, [], ◌∷◌, ◌++◌, Bytes, codes, none, true, false,
  arith,
}
use dbss.Buffer.{Memory, Buffer}
use dbss.Buffer.Capacity.{IsValid, IsAmple, new_buffer-IsValid}
use dbss.Link.{Link, new_link}

instance abbrev pub small_memory : Memory
small_memory = record {
  grants = λ n. ltb n (2 ^ 31);
  grants_small = λ n h. omega (arith, ltb→lt n (2 ^ 31) h);
  stray = codes "+?" ∷ [];
}

pub small_memory-IsAmple : IsAmple
small_memory-IsAmple n h = lt→ltb n (2 ^ 31) h

pub no_grant : (n : ℕ) → false ≡ true → n < 2 ^ 63
no_grant n h = cc

-- A memory that grants nothing.
abbrev pub no_memory : Memory
no_memory = record { grants = λ n. false; grants_small = no_grant; stray = [] }

abbrev pub hello : List Bytes
hello = codes "ok" ∷ codes "hello" ∷ []

-- A buffer of 16 bytes, with its content behind two bytes that were read.
abbrev pub buffer_of : Bytes → Buffer
buffer_of s = record { total = 16; origin_total = 8; front = 2; content = s }

-- A blocking link with so much in its input and output.
abbrev pub link_of : Bytes → Bytes → Link
link_of i o = record {
  noblock = false;
  recv_data = [];
  redis = none;
  input = buffer_of i;
  output = buffer_of o;
}
