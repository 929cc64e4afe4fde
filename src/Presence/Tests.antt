-- ===== src/Presence/Tests.antt =====
-- The theorems on presence at a disabled terminal and a silent one.
use estatemate_minmoe.Prelude.{◌+◌, true, not, ◌||◌, none, some, [], ◌∷◌, all, leb, value_or, ◌≡◌}
use estatemate_minmoe.Prelude.Text.{lit}
use estatemate_minmoe.Hardware.{Key, Device, DeviceStatus, is_online}
use estatemate_minmoe.Presence.{Db, expire_stale_devices}
use estatemate_minmoe.Presence.Retired.{
  stream_up, sweep, apply_stream_reports, disabled_of, disabled-apply_stream_reports,
  seen-expire_stale_devices,
}

abbrev terminal_in : DeviceStatus → Key → Device
terminal_in status k = record {
  id = k;
  connection_pattern = lit "isapi_bridge";
  status = status;
  deleted_at = none;
  last_seen_at = some 100;
  isapi_agent_id = some 5;
}

abbrev gatehouse : Db
gatehouse = record {
  devices = terminal_in DeviceStatus.disabled 1 ∷ terminal_in DeviceStatus.online 2 ∷ [];
  configs = [];
  logged = [];
}

disabled-apply_stream_reports_example :
    disabled_of (apply_stream_reports ((900, stream_up 5 1) ∷ (960, sweep) ∷ []) gatehouse).devices
    ≡ terminal_in DeviceStatus.disabled 1 ∷ []
disabled-apply_stream_reports_example =
    disabled-apply_stream_reports ((900, stream_up 5 1) ∷ (960, sweep) ∷ []) gatehouse

seen-expire_stale_devices_example :
    all
      (λ d. not (is_online d.status) || leb 960 (value_or d.last_seen_at 0 + 600))
      (expire_stale_devices 960 gatehouse).1.devices
    ≡ true
seen-expire_stale_devices_example = seen-expire_stale_devices 960 gatehouse
