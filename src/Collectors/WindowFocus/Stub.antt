-- ===== src/Collectors/WindowFocus/Stub.antt =====
-- src/collectors/window_focus_collector.cpp where the platform is not Windows: the collector sets and
-- resets the flag of its base and sends nothing.
use mind_trace.Base.{true, false, if◌then◌else◌}
use mind_trace.Collectors.{CollectorBase}

unfoldable pub start : CollectorBase → CollectorBase
start c = if c.running then c else record c { running = true }

unfoldable pub stop : CollectorBase → CollectorBase
stop c = if c.running then record c { running = false } else c
