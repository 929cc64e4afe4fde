-- ===== src/DeviceSync/Capable.antt =====
-- What `syncPersonToDevices` of src/device-sync.ts leaves to an agent, the agent can do.
use estatemate_minmoe.Prelude.{ℕ, Bool, true, not, ◌&&◌, ◌||◌, List, ◌++◌, all, ◌≡◌}
use estatemate_minmoe.Prelude.Text.{Text}
use estatemate_minmoe.Hardware.{Key}
use estatemate_minmoe.Credentials.{DeviceOperation}
use estatemate_minmoe.DeviceSync.{
  PersonRef, SyncDevice, Tables, agent_can, card, person, fingerprint,
}
use estatemate_minmoe.DeviceSync.State.{Db, Work}
use estatemate_minmoe.DeviceSync.Ability.{is_able, is_fit}

-- The operations so far are the old ones and fit ones, and so are those of the batch.
record IsFitting (devices : List SyncDevice) (db : Db) (w : Work) : Type 0 where
  added : List DeviceOperation
  split : w.db.operations ≡ db.operations ++ added
  added_fit : all (is_fit devices) added ≡ true
  batch_fit : all (is_fit devices) w.statements ≡ true

module _ (devices : List SyncDevice) (before : Db) (uuid : ℕ → Key) (now : ℕ) (t : Tables)
    (p : PersonRef) (employee_no reason : Text) where
  abbrev knows : SyncDevice → Bool
  knows d =
      (not (agent_can d person) || is_able devices person d.id)
      && (not (agent_can d card) || is_able devices card d.id)
      && (not (agent_can d fingerprint) || is_able devices fingerprint d.id)
