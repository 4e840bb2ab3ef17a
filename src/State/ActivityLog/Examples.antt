-- ===== src/State/ActivityLog/Examples.antt =====
-- Two records in a fresh log.
use statehouse.Prelude.{◌≡◌, refl, pos, [], ◌∷◌, take, str}
use statehouse.Model.ActivityRecord.{ActivityRecord, no_record}
use statehouse.State.ActivityLog.{activity_log_size, new_activity_log, append, update, recent}
use statehouse.State.ActivityLog.Refine.{
  new_activity_log-IsValid, append-IsValid, contents, change_first, contents-append,
  contents-update,
}

abbrev ringing : ActivityRecord
ringing = record no_record { id = str "call-1"; type = str "call" }

abbrev door : ActivityRecord
door = record no_record { id = str "door-1"; type = str "door_open" }

abbrev hung_up : ActivityRecord → ActivityRecord
hung_up r = record r { source = str "intercom" }

recent_newest_first :
    recent (append (append new_activity_log ringing) door) (pos 0) ≡ door ∷ ringing ∷ []
unfolding recent append new_activity_log
recent_newest_first = refl

contents-append_example :
    contents (append new_activity_log ringing)
    ≡ take activity_log_size (ringing ∷ contents new_activity_log)
contents-append_example = contents-append new_activity_log ringing new_activity_log-IsValid

contents-update_example :
    contents (update (append new_activity_log ringing) (str "call-1") hung_up)
    ≡ change_first (str "call-1") hung_up (contents (append new_activity_log ringing))
contents-update_example =
    contents-update (append new_activity_log ringing) (str "call-1") hung_up
      (append-IsValid new_activity_log ringing new_activity_log-IsValid)
