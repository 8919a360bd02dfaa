-- ===== src/Cli/Output/Program/Demonstration.antt =====
-- `main` of apps/cli/main.cpp with the argument "demo", over the event store.
use mind_trace.Base.Text.{Text}
use mind_trace.Json.{Json}
use mind_trace.Storage.Sqlite.{Sqlite}
