-- ===== src/Tests/Texts.antt =====
-- The helpers on texts, and the order of byte strings.
use dbss.Common.{refl, ◌≡◌, [], ◌∷◌, All, codes, arith}
use dbss.Text.{pos, negsuc}
use dbss.Text.Escape.{str_escape, str_unescape, IsPrintable, str_unescape-str_escape}
use dbss.Text.Slices.{str_slice}
use dbss.Text.Trim.{trim}
use dbss.Common.{some}
use dbss.Text.Slices.{substr}
use dbss.Text.Trim.{real_dirname}
use dbss.Text.{str_nat}
use dbss.Common.{none, ◌↔◌, true}
use dbss.Buffer.Order.{less, greater, equals, compare, Precedes, Says, operators_lem}
use dbss.Text.Dump.{dump}
use dbss.Buffer.Stats.{stats}
use dbss.Tests.{buffer_of}
use dbss.Text.Binary.{bitcount, str_to_uint64, big_endian32}
use dbss.Buffer.Decode.{read_uint64, read_8_data}
use dbss.Buffer.Records.{read_record, record_read}
use dbss.Tests.{buffer_of}

str_unescape-str_escape_example :
    All IsPrintable (str_escape (b'\n' ∷ 200 ∷ codes "a\\"))
    × (str_unescape (str_escape (b'\n' ∷ 200 ∷ codes "a\\")) ≡ b'\n' ∷ 200 ∷ codes "a\\")
str_unescape-str_escape_example =
    str_unescape-str_escape (b'\n' ∷ 200 ∷ codes "a\\")
      (omega arith, (omega arith, (omega arith, (omega arith, tt))))

str_escape_run : str_escape (b'\n' ∷ 200 ∷ codes "a") ≡ codes "\\n\\xc8a"
unfolding str_escape
str_escape_run = refl

str_slice_run : str_slice (codes "hello") (pos 1) (negsuc 1) ≡ codes "ell"
unfolding str_slice
str_slice_run = refl

trim_run : trim (codes " \tok \n") ≡ codes "ok"
unfolding trim
trim_run = refl

substr_run : substr (codes "hello") (negsuc 2) (negsuc 0) ≡ codes "ll"
unfolding substr
substr_run = refl

real_dirname_run : real_dirname (some (codes "/home")) (codes "/a/b") ≡ codes "//a"
unfolding real_dirname
real_dirname_run = refl

bitcount_run : bitcount (255 ∷ 5 ∷ []) ≡ 10
unfolding bitcount
bitcount_run = refl

str_to_uint64_run : str_to_uint64 (codes " 18446744073709551615") ≡ 18446744073709551615
unfolding str_to_uint64
str_to_uint64_run = refl

big_endian32_run : big_endian32 1 ≡ 16777216
unfolding big_endian32
big_endian32_run = refl

read_8_data_run : read_8_data (2 ∷ codes "oka") ≡ (some 3, some (codes "ok"), codes "a")
unfolding read_8_data
read_8_data_run = refl

read_uint64_run : read_uint64 (1 ∷ 1 ∷ 0 ∷ 0 ∷ 0 ∷ 0 ∷ 0 ∷ 0 ∷ 7 ∷ []) ≡ (some 8, some 257, 7 ∷ [])
unfolding read_uint64
read_uint64_run = refl

-- The second record cannot be read behind the first one.
read_record_run :
    read_record (buffer_of (codes "2\nok\n3\nend\n"))
    ≡ (record_read (codes "ok"), buffer_of (codes "2\nok\n3"))
unfolding read_record
read_record_run = refl

stats_run : stats (buffer_of (codes "abc")) ≡ codes "total: 16, data: 2, size: 3, slot: 5"
unfolding stats str_nat
stats_run = refl

dump_run : dump (codes "a\n") none ≡ codes "dump <a\\n>\n"
unfolding dump str_escape
dump_run = refl

operators_lem_example :
    ((less (codes "ab") (codes "b") ≡ true) ↔ Precedes (codes "ab") (codes "b"))
    × ((greater (codes "ab") (codes "b") ≡ true) ↔ Precedes (codes "b") (codes "ab"))
    × ((equals (codes "ab") (codes "b") ≡ true) ↔ (codes "ab" ≡ codes "b"))
    × Says (compare (codes "ab") (codes "b")) (codes "ab") (codes "b")
operators_lem_example = operators_lem (codes "ab") (codes "b")
