-- ===== src/Tests/Buffers.antt =====
-- Runs of the buffer's operations.
use dbss.Common.{codes, arith}
use dbss.Buffer.{record_bytes, append_record, make_room}
use dbss.Buffer.Capacity.{IsValid}
use dbss.Buffer.Append.{Appended, append_record-Appended}
use dbss.Buffer.Room.{Roomy, make_room-Roomy}
use dbss.Tests.{small_memory, buffer_of}

pub buffer_of-IsValid_ok : IsValid (buffer_of (codes "ok"))
buffer_of-IsValid_ok = omega arith

-- The record does not fit the 16 bytes: the buffer grows.
append_record-Appended_example :
    Appended
      (record_bytes (codes "hello, world"))
      (buffer_of (codes "ok"))
      (append_record (codes "hello, world") (buffer_of (codes "ok")))
append_record-Appended_example =
    append_record-Appended (codes "hello, world") (buffer_of (codes "ok")) buffer_of-IsValid_ok
      (omega arith)

make_room-Roomy_example :
    Roomy (buffer_of (codes "14 bytes there")) (make_room (buffer_of (codes "14 bytes there")))
make_room-Roomy_example = make_room-Roomy (buffer_of (codes "14 bytes there")) (omega arith)
