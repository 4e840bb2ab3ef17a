-- ===== src/State/ActivityLog.antt =====
-- The ring buffer of recent activity (internal/state/activity_log.go). Its methods hold the mutex
-- throughout, so each is one step.
pub mod Refine
mod Examples
use statehouse.Prelude.{
  ℕ, zero, suc, ◌+◌, ◌-◌, ◌%◌, ℤ, pos, pos_part, leb_ℤ, ltb_ℤ, ◌||◌, Bool, true, false, List, [],
  ◌∷◌, replicate, get_or, set, ltb, if◌then◌else◌, Str, str_eq,
}
use statehouse.Model.ActivityRecord.{ActivityRecord, no_record}

abbrev pub activity_log_size : ℕ
activity_log_size = 50

pub record ActivityLog : Type 0 where
  pub buf : List ActivityRecord
  pub head : ℕ
  pub count : ℕ

pub new_activity_log : ActivityLog
new_activity_log = record { buf = replicate activity_log_size no_record; head = 0; count = 0 }

pub append : ActivityLog → ActivityRecord → ActivityLog
append l r = record {
  buf = set l.buf l.head r;
  head = (l.head + 1) % activity_log_size;
  count = if ltb l.count activity_log_size then suc l.count else l.count;
}

-- `(l.head - 1 - i + ActivityLogSize) % ActivityLogSize`, reordered: `i` stays below the size, so
-- the sum is never negative.
abbrev pub slot : ℕ → ℕ → ℕ
slot head i = (head + activity_log_size - 1 - i) % activity_log_size

-- The loop of `Update`, at entry `i` with `n` entries left.
update_from : ActivityLog → Str → (ActivityRecord → ActivityRecord) → ℕ → ℕ → ActivityLog
update_from l id fn i zero = l
update_from l id fn i (suc n) =
    let rest = update_from l id fn (suc i) n in
    let entry = get_or l.buf (slot l.head i) no_record in
    if str_eq entry.id id then record l { buf = set l.buf (slot l.head i) (fn entry) } else rest

pub update : ActivityLog → Str → (ActivityRecord → ActivityRecord) → ActivityLog
unfolding update_from
update l id fn = update_from l id fn 0 l.count

-- The loop of `Recent`, at entry `i` with `n` entries left.
recent_from : List ActivityRecord → ℕ → ℕ → ℕ → List ActivityRecord
recent_from buf head i zero = []
recent_from buf head i (suc n) = get_or buf (slot head i) no_record ∷ recent_from buf head (suc i) n

-- How many entries `Recent` returns.
abbrev pub clipped : ActivityLog → ℤ → ℕ
clipped l limit =
    if leb_ℤ limit (pos 0) || ltb_ℤ (pos l.count) limit then l.count else pos_part limit

pub recent : ActivityLog → ℤ → List ActivityRecord
unfolding recent_from
recent l limit = recent_from l.buf l.head 0 (clipped l limit)
