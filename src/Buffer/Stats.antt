-- ===== src/Buffer/Stats.antt =====
-- src/util/bytes.h and src/util/bytes.cpp: the numbers in `Bytes`, and the text of `Buffer::stats`.
use dbss.Common.{ℕ, ◌+◌, ◌++◌, Bytes, codes}
use dbss.Text.{ℤ, Errno, str_nat, str_to_int, str_to_int64, errno_after}
use dbss.Text.Binary.{str_to_uint64, uint64_errno}
use dbss.Buffer.{Buffer, size}

-- `Bytes::Int`, `Bytes::Int64` and `Bytes::Uint64`, with what they leave in `errno`.
unfoldable pub int_of : Bytes → Errno → ℤ × Errno
unfolding str_to_int errno_after
int_of s e = (str_to_int s, errno_after s e)

unfoldable pub int64_of : Bytes → Errno → ℤ × Errno
unfolding str_to_int64 errno_after
int64_of s e = (str_to_int64 s, errno_after s e)

unfoldable pub uint64_of : Bytes → Errno → ℕ × Errno
unfolding str_to_uint64 uint64_errno
uint64_of s e = (str_to_uint64 s, uint64_errno s e)

-- The sizes of a buffer are `int`s.
unfoldable pub stats : Buffer → Bytes
unfolding str_nat
stats b =
    codes "total: "
    ++ str_nat b.total
    ++ codes ", data: "
    ++ str_nat b.front
    ++ codes ", size: "
    ++ str_nat (size b)
    ++ codes ", slot: "
    ++ str_nat (b.front + size b)
