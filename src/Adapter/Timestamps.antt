-- ===== src/Adapter/Timestamps.antt =====
-- Timestamps of payloads (internal/adapter/timeutil/timeutil.go).
use statehouse.Prelude.{ℕ, ◌+◌, ◌*◌, ◌≤◌, ◌||◌, arith, ltb, ℤ, pos, pos_part, ltb_ℤ, if◌then◌else◌}
use statehouse.Time.{Time, is_zero, after}

abbrev pub max_future : ℕ
max_future = 86_400_000_000_000

abbrev pub max_past : ℕ
max_past = 2_592_000_000_000_000

abbrev pub min_unix_seconds : ℤ
min_unix_seconds = pos 1_000_000_000

abbrev pub max_unix_seconds : ℤ
max_unix_seconds = pos 4_000_000_000

unfoldable pub sanitise : Time → Time → Time
sanitise parsed now =
    if is_zero parsed
    then now
    else if after parsed (now + max_future) || ltb (parsed + max_past) now
    then now
    else parsed

-- `time.Unix`, of seconds that are not negative: the epoch is 62135596800 seconds after the zero
-- time.
abbrev pub unix : ℕ → Time
unix n = (62_135_596_800 + n) * 1_000_000_000

unfoldable pub unix_seconds : ℤ → Time → Time
unfolding sanitise
unix_seconds raw now =
    if ltb_ℤ raw min_unix_seconds || ltb_ℤ max_unix_seconds raw
    then now
    else sanitise (unix (pos_part raw)) now

sanitise_bounded :
    (parsed now : Time)
    → (now ≤ sanitise parsed now + max_past) × (sanitise parsed now ≤ now + max_future)
unfolding sanitise
sanitise_bounded parsed now = ground arith

-- Whatever a payload claims, its time lies between 30 days before and 24 hours after the current
-- one, whether it is parsed or given in seconds.
pub timestamps_bounded :
    (parsed : Time) (raw : ℤ) (now : Time)
    → (now ≤ sanitise parsed now + max_past)
      × (sanitise parsed now ≤ now + max_future)
      × (now ≤ unix_seconds raw now + max_past)
      × (unix_seconds raw now ≤ now + max_future)
unfolding unix_seconds
timestamps_bounded parsed raw now =
    let (a, b) = sanitise_bounded parsed now in
    let (c, d) = sanitise_bounded (unix (pos_part raw)) now in ground (arith, a, b, c, d)
