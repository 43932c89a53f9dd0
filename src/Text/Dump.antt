-- ===== src/Text/Dump.antt =====
-- src/util/strings.h: `hexmem` and `dump`, and `str` of a C string.
use dbss.Common.{Option, none, some, ◌++◌, Bytes, codes}
use dbss.Text.{c_str}
use dbss.Text.Escape.{str_escape}

unfoldable pub hexmem : Bytes → Bytes
unfolding str_escape
hexmem p = str_escape p

-- What `dump` prints; `none` is a `msg` of NULL.
unfoldable pub dump : Bytes → Option Bytes → Bytes
unfolding hexmem c_str
dump p none = codes "dump <" ++ c_str (hexmem p) ++ codes ">\n"
dump p (some msg) = c_str msg ++ codes " <" ++ c_str (hexmem p) ++ codes ">\n"
