-- ===== src/Lsn/Examples.antt =====
-- A position of the log, printed and read.
use patroni.Base.{◌≡◌, false, some}
use patroni.Lsn.{parse_lsn, format_lsn}
use patroni.Lsn.RoundTrip.{parse_lsn-format_lsn}

parse_lsn-format_lsn_example : parse_lsn (format_lsn 67108864 false) ≡ some 67108864
parse_lsn-format_lsn_example = parse_lsn-format_lsn 67108864 false
