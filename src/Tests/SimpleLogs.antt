-- ===== src/Tests/SimpleLogs.antt =====
-- The loop of `parse_mm_log_simple` on a small log.
use vatic_udp.Prelude.{List, [], ◌∷◌, ◌≡◌, refl, none, some, pos, ok}
use vatic_udp.Py.Text.{Text, codes}
use vatic_udp.Mmparse.LogSimple.{
  ingress, egress, capacity, no_bytes, Queue, QueueMatch, SimpleLine, timestamp_line, queue_line,
  operation_line, read_simple_line, simple_loop, Parsed, finish, parse_lines,
}
use vatic_udp.Mmparse.LogSimple.Conservation.{read_simple_log}

abbrev match_droptail : QueueMatch
match_droptail line = some (codes "droptail", some (codes "bytes", codes "3000"))

abbrev short_log : List Text
short_log =
    codes "# queue: droptail [bytes=3000]\n"
    ∷ codes "# init timestamp: 1700\n"
    ∷ codes "2 + 500 0\n"
    ∷ codes "4 # 1504~1 500\n"
    ∷ codes "4 - 500 12 0\n"
    ∷ []

abbrev droptail : Queue
droptail = record {
  q_type = some (codes "droptail");
  qsize_unit = some (codes "bytes");
  qsize_limit = some (pos 3000);
}

abbrev short_table : Parsed
short_table = record {
  table =
      record {
        time = pos 1702;
        bytes = record no_bytes { ingress_bytes = pos 500 };
        qsize = pos 500;
      }
      ∷ record { time = pos 1703; bytes = no_bytes; qsize = pos 500 }
      ∷ record {
        time = pos 1704;
        bytes = record no_bytes { egress_bytes = pos 500; capacity_bytes = pos 1504 };
        qsize = pos 0;
      }
      ∷ [];
  queue_info = droptail;
}

abbrev short_lines : List SimpleLine
short_lines =
    queue_line droptail
    ∷ timestamp_line (pos 1700)
    ∷ operation_line
        (record { tick = pos 2; queue_size = pos 0; counted = some (ingress, pos 500) })
    ∷ operation_line
        (record { tick = pos 4; queue_size = pos 500; counted = some (capacity, pos 1504) })
    ∷ operation_line (record { tick = pos 4; queue_size = pos 0; counted = some (egress, pos 500) })
    ∷ []

short_parsed : parse_lines match_droptail short_log ≡ ok short_table
unfolding parse_lines simple_loop finish codes
short_parsed = refl

short_read : read_simple_log match_droptail none short_log ≡ ok short_lines
unfolding read_simple_log read_simple_line codes
short_read = refl
