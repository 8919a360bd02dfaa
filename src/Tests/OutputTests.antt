-- ===== src/Tests/OutputTests.antt =====
-- Theorems of Cli.Output at concrete inputs.
use mind_trace.Index.{InvertedIndex}
use mind_trace.Base.{ℕ, ◌/◌, ◌%◌, ◌≡◌, refl, [], ◌∷◌, some}
use mind_trace.Base.Text.{Text, codes}
use mind_trace.Base.Sort.{insertion_sorter}
use mind_trace.Common.{Tm}
use mind_trace.Cli.Output.{print_search}
use mind_trace.Cli.Output.Lines.{lines, search_lines, lines-print_search}
use mind_trace.Cli.Output.Program.{program}
use mind_trace.Cli.Output.Program.Reading.{answered, program-answered}
use mind_trace.Cli.Queries.{is_refused}
use mind_trace.Tests.CliTests.{later, in_order}
use mind_trace.Tests.{edit, visit, history, in_memory}

-- A calendar of one year at most: hours and minutes of the day are right.
abbrev local_time : ℕ → Tm
local_time t = record {
  tm_year = 123;
  tm_mon = 10;
  tm_mday = 14;
  tm_hour = t / 3600 % 24;
  tm_min = t / 60 % 60;
  tm_sec = t % 60;
}

lines-print_search_example :
    lines (print_search local_time (codes "cpp") (visit ∷ edit ∷ []))
    ≡ search_lines local_time (codes "cpp") (visit ∷ edit ∷ [])
lines-print_search_example =
    lines-print_search local_time (codes "cpp") (visit ∷ edit ∷ []) refl refl

-- All places read the same time.
abbrev stopped_clock : ℕ → ℕ
stopped_clock place = later

program-answered_example :
    (output : Text) × (index : InvertedIndex) × (program in_memory local_time in_order
        insertion_sorter insertion_sorter stopped_clock
        (some history)
        (codes "search" ∷ [])
      ≡ answered (is_refused (codes "search") []) (codes "search") output history index)
program-answered_example =
    program-answered in_memory local_time in_order insertion_sorter insertion_sorter stopped_clock
      (codes "search") [] history refl refl
