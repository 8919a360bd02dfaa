-- ===== src/Collectors/Clipboard.antt =====
-- include/collectors/clipboard_collector.hpp and src/collectors/clipboard_collector.cpp: a stub, which
-- has no state but that of the base and sends nothing.
use mind_trace.Base.{true, false, if◌then◌else◌}
use mind_trace.Collectors.{CollectorBase}

unfoldable pub start : CollectorBase → CollectorBase
start c = if c.running then c else record c { running = true }

unfoldable pub stop : CollectorBase → CollectorBase
stop c = if c.running then record c { running = false } else c
