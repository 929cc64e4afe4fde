-- ===== src/Presence/Retired.antt =====
-- What the reports on streams and the sweeps in src/index.ts leave of a disabled terminal, and of a silent one.
use estatemate_minmoe.Prelude.{
  ℕ, ◌+◌, Bool, true, false, not, ◌&&◌, ◌||◌, Option, none, some, List, [], ◌∷◌, ◌==◌, leb,
  if◌then◌else◌, update, all, value_or, ◌≡◌, refl, ◌∙◌, arith,
}
use estatemate_minmoe.Hardware.{Key, Device, DeviceStatus, is_disabled, is_online}
use estatemate_minmoe.Presence.{
  Db, is_pending_or_online, goes_down, offline_row, online_row, is_stale, mark_terminal_stream_down,
  mark_up_found, mark_terminal_stream_up, expire_stale_devices,
}

-- What an agent says of the event stream of a terminal, and the sweep. Heartbeats, events and results of
-- agents, which write rows of terminals too, are not among them.
pub data StreamReport : Type 0 where
  stream_down stream_up : Key → Key → StreamReport
  sweep : StreamReport

abbrev pub apply_stream_report : ℕ → StreamReport → Db → Db
apply_stream_report now (stream_down agent id) db = (mark_terminal_stream_down agent id db).1
apply_stream_report now (stream_up agent id) db = (mark_terminal_stream_up now agent id db).1
apply_stream_report now sweep db = (expire_stale_devices now db).1

abbrev pub apply_stream_reports : List (ℕ × StreamReport) → Db → Db
apply_stream_reports [] db = db
apply_stream_reports (r ∷ rs) db = apply_stream_reports rs (apply_stream_report r.0 r.1 db)

-- The terminals that an administrator has disabled.
abbrev pub disabled_of : List Device → List Device
disabled_of [] = []
disabled_of (d ∷ ds) = if is_disabled d.status then d ∷ disabled_of ds else disabled_of ds

disabled-update :
    (p : Device → Bool) (f : Device → Device) (ds : List Device)
    → ((d : Device) → is_disabled d.status ≡ true → p d ≡ false)
    → ((d : Device) → is_disabled (f d).status ≡ false)
    → disabled_of (update p f ds) ≡ disabled_of ds
disabled-update p f [] h k = refl
disabled-update p f (d ∷ ds) h k = ground (arith, h d, k d, disabled-update p f ds h k)

status_lem :
    (s : DeviceStatus)
    → is_disabled s ≡ true
    → (is_pending_or_online s ≡ false) × (is_online s ≡ false)
status_lem DeviceStatus.disabled h = (refl, refl)
status_lem DeviceStatus.pending h = grind arith
status_lem DeviceStatus.online h = grind arith
status_lem DeviceStatus.offline h = grind arith

disabled-down :
    (agent id : Key) (db : Db)
    → disabled_of (mark_terminal_stream_down agent id db).1.devices ≡ disabled_of db.devices
unfolding mark_terminal_stream_down
disabled-down agent id db =
    let kept =
      disabled-update (goes_down db agent id) offline_row db.devices
        (λ d h. ground (arith, (status_lem d.status h).0)) (λ d. refl) in
    ground (arith, kept)

disabled-up :
    (now : ℕ) (id : Key) (db : Db) (o : Option Device)
    → disabled_of (mark_up_found now id db o).1.devices ≡ disabled_of db.devices
unfolding mark_up_found
disabled-up now id db none = refl
disabled-up now id db (some previous) =
    disabled-update (λ d. d.id == id && not (is_disabled d.status)) (online_row now) db.devices
      (λ d h. ground arith) (λ d. refl)

disabled-report :
    (now : ℕ) (r : StreamReport) (db : Db)
    → disabled_of (apply_stream_report now r db).devices ≡ disabled_of db.devices
unfolding mark_terminal_stream_up expire_stale_devices
disabled-report now (stream_down agent id) db = disabled-down agent id db
disabled-report now (stream_up agent id) db = disabled-up now id db _
disabled-report now sweep db =
    disabled-update (is_stale now) offline_row db.devices
      (λ d h. ground (arith, (status_lem d.status h).1)) (λ d. refl)

-- Whatever agents report of the streams of terminals (up or down) and sweeps do, in whatever order and
-- at whatever times, the disabled terminals stay the same, rows and all: no such report brings one back.
pub disabled-apply_stream_reports :
    (reports : List (ℕ × StreamReport)) (db : Db)
    → disabled_of (apply_stream_reports reports db).devices ≡ disabled_of db.devices
disabled-apply_stream_reports [] db = refl
disabled-apply_stream_reports ((now, r) ∷ rs) db =
    disabled-apply_stream_reports rs (apply_stream_report now r db) ∙ disabled-report now r db

-- After the sweep every terminal that counts as online has been seen in the last ten minutes.
pub seen-expire_stale_devices :
    (now : ℕ) (db : Db)
    → all
        (λ d. not (is_online d.status) || leb now (value_or d.last_seen_at 0 + 600))
        (expire_stale_devices now db).1.devices
      ≡ true
unfolding expire_stale_devices
seen-expire_stale_devices now db = go db.devices
  where
    go :
        (ds : List Device)
        → all
            (λ d. not (is_online d.status) || leb now (value_or d.last_seen_at 0 + 600))
            (update (is_stale now) offline_row ds)
          ≡ true
    go [] = refl
    go (d ∷ ds) = ground (arith, go ds)
