-- ===== src/Sessions/Lifecycle.antt =====
-- crates/sessions/src/lifecycle.rs: whether a session is started anew, daily or after idle time.
-- Times are milliseconds since the epoch, not before it.
use serial_agent.Prelude.{
  ℕ, ◌+◌, ◌-◌, ◌*◌, ◌/◌, Bool, false, not, ◌&&◌, Option, none, some, ltb, leb, if◌then◌else◌, Bytes,
  bytes, bytes_eq, Map, get, is_some,
}
use serial_agent.Sessions.{InboundMetadata}

pub record ResetOverride : Type 0 where
  pub daily_reset_hour : Option ℕ
  pub idle_minutes : Option ℕ

pub record LifecycleConfig : Type 0 where
  pub daily_reset_hour : Option ℕ
  pub idle_minutes : Option ℕ
  pub reset_by_type : Map Bytes ResetOverride
  pub reset_by_channel : Map Bytes ResetOverride

pub data ResetReason : Type 0 where
  daily_reset idle_timeout : ℕ → ResetReason

abbrev pub msg_type : InboundMetadata → Bytes
msg_type meta =
    if is_some meta.thread_id
    then bytes "thread"
    else if meta.is_direct
    then bytes "direct"
    else bytes "group"

-- A value of an override replaces the one found so far.
abbrev replace_by : Option ℕ → Option ℕ → Option ℕ
replace_by none old = old
replace_by (some n) old = some n

abbrev pub apply_override : Option ResetOverride → Option ℕ × Option ℕ → Option ℕ × Option ℕ
apply_override none found = found
apply_override (some o) found =
    (replace_by o.daily_reset_hour found.0, replace_by o.idle_minutes found.1)

abbrev pub channel_override : LifecycleConfig → Option Bytes → Option ResetOverride
channel_override config none = none
channel_override config (some ch) = get ch config.reset_by_channel

-- The hour of the daily reset and the idle minutes for a message.
unfoldable pub resolve_params : LifecycleConfig → InboundMetadata → Option ℕ × Option ℕ
resolve_params config meta =
    let by_type =
      apply_override (get (msg_type meta) config.reset_by_type)
        (config.daily_reset_hour, config.idle_minutes) in
    apply_override (channel_override config meta.channel) by_type

abbrev pub day : ℕ
day = 86400000

abbrev pub hour_ms : ℕ
hour_ms = 3600000

-- A subtraction of a day before the first day stops at 0, where no time is earlier, as none that
-- is represented here is earlier than the boundary of the code.
unfoldable pub crossed_daily_boundary : ℕ → ℕ → ℕ → Bool
crossed_daily_boundary last_active now hour =
    if ltb ((now - last_active) / 1000) 60
    then false
    else if leb 24 hour
    then false
    else let today = now / day * day + hour * hour_ms in
      let boundary = if leb today now then today else today - day in
      ltb last_active boundary && leb boundary now

-- `num_minutes() >= idle`: the difference is signed and rounded towards 0, so a last message that
-- lies a minute or more ahead has a negative age, which is below every limit.
unfoldable pub idle_over : ℕ → ℕ → ℕ → Bool
idle_over last_active now idle =
    not (leb 60000 (last_active - now)) && leb idle ((now - last_active) / 60000)

unfoldable pub check_idle : Option ℕ → ℕ → ℕ → Option ResetReason
unfolding idle_over
check_idle none last_active now = none
check_idle (some idle) last_active now =
    if idle_over last_active now idle then some (idle_timeout idle) else none

unfoldable pub check_daily : Option ℕ × Option ℕ → ℕ → ℕ → Option ResetReason
unfolding crossed_daily_boundary check_idle
check_daily (none, idle) last_active now = check_idle idle last_active now
check_daily (some hour, idle) last_active now =
    if crossed_daily_boundary last_active now hour
    then some (daily_reset hour)
    else check_idle idle last_active now

-- `LifecycleManager::should_reset`, on the time of the session's last update.
unfoldable pub should_reset : LifecycleConfig → ℕ → InboundMetadata → ℕ → Option ResetReason
unfolding resolve_params check_daily
should_reset config updated_at meta now = check_daily (resolve_params config meta) updated_at now
