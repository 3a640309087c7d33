-- ===== src/Adapter/Stats.antt =====
-- `handle_stats` of src/lsm_adapter.cpp, with the averages of src/lsm_tree.cpp. `fixed` is how a stream
-- prints a `double` under `std::fixed` with a precision, which the stream keeps for `print_stats`; the
-- times that were measured are a parameter.
use cs.Prelude.{ℕ, [], ◌∷◌, Bool, ◌||◌, ltb, ◌==◌, if◌then◌else◌, length, take, is_empty}
use cs.Double.{Doubles, zero_double}
use cs.Store.{codes, to_string}
use cs.Text.{Text, joined}
use cs.Tree.{LsmTree, TreeAction, ◌>>=◌, return}
use cs.Tree.Stats.{print_stats}

-- `total_read_time_ms` and `total_write_time_ms`, as `double`s.
pub record Times : Type 0 where
  pub total_read_time_ms : ℕ
  pub total_write_time_ms : ℕ

abbrev pub thousand_double : ℕ
thousand_double = 0x408f_4000_0000_0000

-- `stats.find_first_not_of(" \t\r\n") == std::string::npos`
unfoldable pub is_blank : Text → Bool
is_blank [] = Bool.true
is_blank (c ∷ cs) =
    let rest = is_blank cs in
    if c == 32 || (c == 9 || (c == 13 || c == 10)) then rest else Bool.false

-- `MAX_STATS_SIZE`
abbrev pub max_stats_size : ℕ
max_stats_size = 8192

unfoldable pub limited : Text → Text
unfolding is_blank
limited stats =
    if is_empty stats || is_blank stats
    then codes "LSM-Tree is empty. No data has been loaded."
    else if ltb max_stats_size (length stats)
    then joined (
        take max_stats_size stats
        ∷ codes "\n\n[WARNING: Stats output was truncated due to size]"
        ∷ [])
    else stats

module _ (d : Doubles) (fixed : ℕ → ℕ → Text) (times : Times) where
  -- A quotient, or 0 where nothing is counted.
  abbrev pub per : ℕ → ℕ → ℕ
  per amount count = if ltb 0 count then d.div amount (d.of_size count) else zero_double

  abbrev pub get_avg_read_time_ms : LsmTree → ℕ
  get_avg_read_time_ms t = per times.total_read_time_ms t.read_count

  abbrev pub get_avg_write_time_ms : LsmTree → ℕ
  get_avg_write_time_ms t = per times.total_write_time_ms t.write_count

  abbrev pub throughput : ℕ → ℕ
  throughput avg = if d.lt zero_double avg then d.div thousand_double avg else zero_double

  unfoldable pub print_metrics : LsmTree → Text
  print_metrics t = joined (
      codes "===== Performance Metrics =====\n"
      ∷ codes "Total Operations:\n"
      ∷ codes "  Reads: "
      ∷ to_string t.read_count
      ∷ codes "\n  Writes: "
      ∷ to_string t.write_count
      ∷ codes "\nAverage Operation Time:\n"
      ∷ codes "  Reads: "
      ∷ fixed 3 (get_avg_read_time_ms t)
      ∷ codes " ms/op\n"
      ∷ codes "  Writes: "
      ∷ fixed 3 (get_avg_write_time_ms t)
      ∷ codes " ms/op\n"
      ∷ codes "Operation Throughput:\n"
      ∷ codes "  Reads: "
      ∷ fixed 2 (throughput (get_avg_read_time_ms t))
      ∷ codes " ops/sec\n"
      ∷ codes "  Writes: "
      ∷ fixed 2 (throughput (get_avg_write_time_ms t))
      ∷ codes " ops/sec\n"
      ∷ [])

  unfoldable pub print_io : LsmTree → Text
  print_io t =
      let reads = t.store.read_io_count in
      let writes = t.store.write_io_count in
      joined (
        codes "\n===== I/O Statistics =====\n"
        ∷ codes "Read I/Os: "
        ∷ to_string reads
        ∷ codes "\nWrite I/Os: "
        ∷ to_string writes
        ∷ codes "\nI/O Efficiency:\n"
        ∷ codes "  I/O per read operation: "
        ∷ fixed 2 (per (d.of_size reads) t.read_count)
        ∷ codes "\n  I/O per write operation: "
        ∷ fixed 2 (per (d.of_size writes) t.write_count)
        ∷ codes "\n=========================\n\n"
        ∷ [])

  unfoldable pub handle_stats : TreeAction Text
  unfolding limited print_metrics print_io print_stats
  handle_stats t =
      (do
        stats ← print_stats d (fixed 2)
        return (limited (joined (print_metrics t ∷ print_io t ∷ stats ∷ []))))
        t
