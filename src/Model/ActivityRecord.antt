-- ===== src/Model/ActivityRecord.antt =====
-- An entry of the recent-activity log (internal/model/activity_record.go). The field Meta is for
-- display alone and is left out.
use statehouse.Prelude.{Option, Str, none, []}
use statehouse.Time.{Time}

pub record ActivityRecord : Type 0 where
  pub id : Str
  pub source : Str
  pub location : Str
  pub type : Str
  pub started_at : Time
  pub ended_at : Option Time

-- Go's zero value.
abbrev pub no_record : ActivityRecord
no_record = record {
  id = [];
  source = [];
  location = [];
  type = [];
  started_at = 0;
  ended_at = none;
}
