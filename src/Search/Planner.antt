-- ===== src/Search/Planner.antt =====
-- include/search/query_planner.hpp and src/search/query_planner.cpp: which indexes a query uses.
pub mod Uses
use mind_trace.Base.{
  ℕ, Bool, true, false, not, List, [], Option, none, some, is_empty, if◌then◌else◌,
}
use mind_trace.Base.Text.{Text}
use mind_trace.Event.{EventType, unknown}
use mind_trace.Search.Parser.{QuerySpec}

pub record QueryPlan : Type 0 where
  pub use_keyword_index : Bool
  pub use_time_index : Bool
  pub use_type_filter : Bool
  pub use_app_index : Bool
  pub keywords : List Text
  pub time_start : ℕ
  pub time_end : ℕ
  pub type_filter : EventType
  pub app_filter : Text

-- The default member values.
abbrev pub new_plan : QueryPlan
new_plan = record {
  use_keyword_index = false;
  use_time_index = false;
  use_type_filter = false;
  use_app_index = false;
  keywords = [];
  time_start = 0;
  time_end = 0;
  type_filter = unknown;
  app_filter = [];
}

plan_keywords : List Text → QueryPlan → QueryPlan
plan_keywords keywords p =
    if not (is_empty keywords)
    then record p { use_keyword_index = true; keywords = keywords }
    else p

plan_time : Option ℕ → Option ℕ → QueryPlan → QueryPlan
plan_time (some start) (some end) p = record p {
  use_time_index = true;
  time_start = start;
  time_end = end;
}
plan_time _ _ p = p

plan_type : Option EventType → QueryPlan → QueryPlan
plan_type (some type) p = record p { use_type_filter = true; type_filter = type }
plan_type none p = p

plan_application : Option Text → QueryPlan → QueryPlan
plan_application (some application) p = record p { use_app_index = true; app_filter = application }
plan_application none p = p

unfoldable pub plan : QuerySpec → QueryPlan
unfolding plan_keywords plan_time plan_type plan_application
plan spec = plan_application spec.application (
    plan_type spec.event_type
      (plan_time spec.time_start spec.time_end (plan_keywords spec.keywords new_plan)))
