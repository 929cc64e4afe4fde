-- ===== src/Presence.antt =====
-- Which terminals count as online, in src/index.ts: `markTerminalStreamDown`, `markTerminalStreamUp` and
-- the part of `expireStalePresence` about terminals. Times are seconds. Of the log, the entries for a
-- terminal are kept, without their texts.
pub mod Retired
pub mod Tests
use estatemate_minmoe.Prelude.{
  ℕ, ◌+◌, Bool, true, false, not, ◌&&◌, ◌||◌, Option, none, some, List, [], ◌∷◌, ◌++◌, ◌==◌, leb,
  ltb, if◌then◌else◌, any, update, count, first, value_or,
}
use estatemate_minmoe.Hardware.{
  Key, Device, DeviceConfig, DeviceStatus, is_disabled, is_online, is_null, holds_key,
}

pub record Db : Type 0 where
  pub devices : List Device
  pub configs : List DeviceConfig
  pub logged : List Key

-- `TERMINAL_AGENT_LINK_SQL`
abbrev pub is_linked_to : Db → Key → Device → Bool
is_linked_to db agent d =
    holds_key d.isapi_agent_id agent
    || any (λ c. c.device_id == d.id && holds_key c.agent_id agent && c.sync_enabled) db.configs

abbrev pub is_pending_or_online : DeviceStatus → Bool
is_pending_or_online DeviceStatus.pending = true
is_pending_or_online DeviceStatus.online = true
is_pending_or_online _ = false

abbrev pub goes_down : Db → Key → Key → Device → Bool
goes_down db agent id d =
    d.id == id && is_pending_or_online d.status && is_null d.deleted_at && is_linked_to db agent d

abbrev pub offline_row : Device → Device
offline_row d = record d { status = DeviceStatus.offline }

pub mark_terminal_stream_down : Key → Key → Db → Bool × Db
mark_terminal_stream_down agent id db =
    if leb 1 (count (goes_down db agent id) db.devices)
    then (
      true,
      record db {
        devices = update (goes_down db agent id) offline_row db.devices;
        logged = db.logged ++ id ∷ [];
      },
    )
    else (false, db)

abbrev pub online_row : ℕ → Device → Device
online_row now d = record d { status = DeviceStatus.online; last_seen_at = some now }

pub mark_up_found : ℕ → Key → Db → Option Device → Bool × Db
mark_up_found now id db none = (false, db)
mark_up_found now id db (some previous) = (
  true,
  record db {
    devices = update (λ d. d.id == id && not (is_disabled d.status)) (online_row now) db.devices;
    logged = if not (is_online previous.status) then db.logged ++ id ∷ [] else db.logged;
  },
)

pub mark_terminal_stream_up : ℕ → Key → Key → Db → Bool × Db
mark_terminal_stream_up now agent id db = mark_up_found now id db (
    first
      (λ d.
        d.id == id && is_null d.deleted_at && not (is_disabled d.status) && is_linked_to db agent d)
      db.devices)

-- `status='online' AND COALESCE(last_seen_at,'1970-01-01 00:00:00') < datetime('now','-10 minutes')`
abbrev pub is_stale : ℕ → Device → Bool
is_stale now d = is_online d.status && ltb (value_or d.last_seen_at 0 + 600) now

-- The number of terminals retired comes with the tables.
pub expire_stale_devices : ℕ → Db → ℕ × Db
expire_stale_devices now db = (
  count (is_stale now) db.devices,
  record db { devices = update (is_stale now) offline_row db.devices },
)
