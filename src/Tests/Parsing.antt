-- ===== src/Tests/Parsing.antt =====
-- Runs of the packet parsers and of `str_to_int64`.
use dbss.Text.{str_nat}
use dbss.Common.{◌≡◌, refl, [], ◌∷◌, ◌++◌, codes, length, arith}
use dbss.Tests.{hello}
use dbss.Text.{negsuc, str_int, str_to_int64, clear}
use dbss.Text.Decimal.{str_to_int64-str_int}
use dbss.Redis.Request.{request}
use dbss.Redis.Request.Wire.{req_bytes}
use dbss.Redis.Request.Complete.{parse_req-req_bytes}
use dbss.Redis.Request.{parse_req}
use dbss.Common.{AreShort}
use dbss.Redis.Request.Bounds.{Fits as FitsRequest, parse_req-Fits}
use dbss.Link.Parse.{packet, not_ready, parse_packet, records_bytes, packet_bytes}
use dbss.Link.Parse.Complete.{parse_packet-packet_bytes}
use dbss.Link.Parse.Partial.{parse_packet-prefix}
use dbss.Link.Parse.Bounds.{Fits, parse_packet-Fits}

hello-AreShort : AreShort hello
hello-AreShort = (omega arith, (omega arith, tt))

parse_packet-packet_bytes_example :
    parse_packet (packet_bytes hello ++ codes "3") ≡ packet hello (length (packet_bytes hello))
unfolding records_bytes str_nat
parse_packet-packet_bytes_example =
    parse_packet-packet_bytes (codes "ok") (codes "hello" ∷ []) (codes "3") hello-AreShort
      (omega arith)

parse_packet-prefix_example : parse_packet (codes "2\nok\n5\nhel") ≡ not_ready
unfolding records_bytes str_nat packet_bytes
parse_packet-prefix_example =
    parse_packet-prefix (codes "ok") (codes "hello" ∷ []) (codes "2\nok\n5\nhel") (codes "lo\n\n")
      hello-AreShort (omega arith) (λ x. cc) refl

parse_packet-Fits_example : Fits 10 (parse_packet (codes "2\nok\n\n3\nab"))
parse_packet-Fits_example = parse_packet-Fits (codes "2\nok\n\n3\nab")

str_to_int64-str_int_example :
    str_to_int64 (str_int (negsuc 9223372036854775807)) ≡ negsuc 9223372036854775807
str_to_int64-str_int_example = str_to_int64-str_int (negsuc 9223372036854775807) (omega arith)

parse_req-req_bytes_example :
    parse_req clear (req_bytes (codes "GET" ∷ codes "key" ∷ []) (codes "*1")) ≡ (
      request
          (codes "GET" ∷ codes "key" ∷ [])
          (length (req_bytes (codes "GET" ∷ codes "key" ∷ []) [])),
      clear,
    )
parse_req-req_bytes_example =
    parse_req-req_bytes clear (codes "GET") (codes "key" ∷ []) (codes "*1")
      (omega arith, (omega arith, tt)) (omega arith) refl

parse_req-Fits_example :
    FitsRequest
      (length (codes "*2\r\n$3\r\nGET\r\n"))
      (parse_req clear (codes "*2\r\n$3\r\nGET\r\n")).0
parse_req-Fits_example = parse_req-Fits clear (codes "*2\r\n$3\r\nGET\r\n")
