-- ===== src/DeviceSync/Again.antt =====
-- Pressing sync twice: the second run of `syncPersonToDevices` of src/device-sync.ts finds all its work
-- open already.
use estatemate_minmoe.Prelude.{
  ℕ, Bool, true, false, Option, none, some, List, [], ◌++◌, if◌then◌else◌, any, append_none, all,
  for_each, for_each-still, for_each-always, ◌≡◌, refl, ap, ◌∙◌, arith, length,
}
use estatemate_minmoe.Prelude.Text.{Text}
use estatemate_minmoe.Hardware.{Key}
use estatemate_minmoe.Credentials.{DeviceOperation, upsert_person}
use estatemate_minmoe.DeviceSync.{PersonRef, SyncDevice, Tables, agent_can, person}
use estatemate_minmoe.DeviceSync.State.{
  SyncState, Db, Work, is_person_open, is_card_open, is_finger_open, skip,
}
use estatemate_minmoe.DeviceSync.Rows.{person_row, card_kind, cards_for_person, fingers_for_person}
use estatemate_minmoe.DeviceSync.Queueing.{
  push, queue_person, person_step, card_step, finger_step, credentials_step, begin, has_employee_no,
  sync_work, sync_for, sync_person_to_devices,
}
use estatemate_minmoe.DeviceSync.Open.{
  all_operations, Keeps, operations-set, credentials_step-Keeps,
}
use estatemate_minmoe.DeviceSync.Done.{
  all-Keeps, person_open, credentials_open, persons_done, credentials_done,
}

-- A run that has queued nothing so far, over operations that it leaves alone.
record Idle (ops : List DeviceOperation) (w : Work) : Type 0 where
  kept : w.db.operations ≡ ops
  empty : w.statements ≡ []
  unqueued : w.result.queued ≡ 0
  unasked : w.result.manual ≡ 0

-- Work that is open already is skipped.
skip-Idle :
    (ops : List DeviceOperation) (w other : Work) (r : DeviceOperation → Bool)
    → any r ops ≡ true
    → Idle ops w
    → Idle ops (if any r w.db.operations then record w { result = skip w.result } else other)
skip-Idle ops w other r h idle =
    let here : any r w.db.operations ≡ true = ap (any r) idle.kept ∙ h in
    rw here (record {
      kept = idle.kept;
      empty = idle.empty;
      unqueued = idle.unqueued;
      unasked = idle.unasked;
    })

module _ (uuid : ℕ → Key) (now : ℕ) (t : Tables) (p : PersonRef) (employee_no reason : Text)
    (ops : List DeviceOperation) where
  person_step-Idle :
      (w : Work) (d : SyncDevice)
      → person_open t p ops d ≡ true
      → Idle ops w
      → Idle ops (person_step uuid now p employee_no reason w d)
  unfolding person_step
  person_step-Idle w d h idle =
      let state = if agent_can d person then SyncState.pending else SyncState.manual in
      let queued : Idle ops (queue_person uuid now p employee_no reason w d) =
        skip-Idle ops w
          (push uuid now p employee_no reason (agent_can d person)
            (λ id. person_row id p employee_no reason d) w)
          (is_person_open d.id upsert_person p) h idle in
      record {
        kept =
            operations-set uuid now p d.id state (queue_person uuid now p employee_no reason w d).db
            ∙ queued.kept;
        empty = queued.empty;
        unqueued = queued.unqueued;
        unasked = queued.unasked;
      }

  credentials_step-Idle :
      (w : Work) (d : SyncDevice)
      → credentials_open t p ops d ≡ true
      → Idle ops w
      → Idle ops (credentials_step uuid now t p employee_no reason w d)
  unfolding credentials_step card_step finger_step
  credentials_step-Idle w d h idle =
      let cards = cards_for_person t p in
      let fingers = fingers_for_person t p in
      for_each-still (finger_step uuid now t p reason d) (λ v. Idle ops v)
        (λ f. any (is_finger_open d.id f.id) ops) fingers
        (for_each (card_step uuid now p employee_no reason d) cards w)
        (λ v f k i. skip-Idle ops v _ (is_finger_open d.id f.id) k i) (ground (arith, h))
        (for_each-still (card_step uuid now p employee_no reason d) (λ v. Idle ops v)
          (λ c. any (is_card_open d.id (card_kind c) c.id) ops) cards w
          (λ v c k i. skip-Idle ops v _ (is_card_open d.id (card_kind c) c.id) k i)
          (ground (arith, h)) idle)

-- A run that is idle writes its batch of none.
run-Idle :
    (ops : List DeviceOperation) (w : Work) → Idle ops w → w.db.operations ++ w.statements ≡ ops
run-Idle ops w idle =
    ap (λ r. w.db.operations ++ r) idle.empty ∙ append_none w.db.operations ∙ idle.kept

module _ (uuid : ℕ → Key) (now later : ℕ) (t : Tables) (p : PersonRef) (reason reason2 : Text)
    (devices : List SyncDevice) (db : Db) where
  abbrev worked : Text → Bool → Work
  worked employee_no credentials = sync_work uuid now t p reason credentials devices employee_no db

  again-sync_work :
      (employee_no : Text) (credentials : Bool) (second : Db)
      → second.operations ≡ all_operations (worked employee_no credentials)
      → Idle
          (all_operations (worked employee_no credentials))
          (sync_work uuid later t p reason2 credentials devices employee_no second)
  again-sync_work employee_no false second same =
      for_each-still (person_step uuid later p employee_no reason2)
        (λ v. Idle (all_operations (worked employee_no false)) v)
        (person_open t p (all_operations (worked employee_no false))) devices
        (begin (length devices) second)
        (λ v d h i.
          person_step-Idle uuid later t p employee_no reason2
            (all_operations (worked employee_no false)) v d h i)
        (persons_done uuid now t p employee_no reason devices (begin (length devices) db))
        (record { kept = same; empty = refl; unqueued = refl; unasked = refl })
  again-sync_work employee_no true second same =
      let persons =
        for_each (person_step uuid now p employee_no reason) devices (begin (length devices) db) in
      let ops = all_operations (worked employee_no true) in
      let later_keeps : Keeps persons (worked employee_no true) = λ r h.
        for_each-always (credentials_step uuid now t p employee_no reason)
          (λ v. any r (all_operations v) ≡ true) devices persons
          (λ v d. credentials_step-Keeps uuid now t p employee_no reason v d r) h in
      let persons_open : all (person_open t p ops) devices ≡ true =
        all-Keeps (λ d. is_person_open d.id upsert_person p) persons (worked employee_no true)
          devices later_keeps
          (persons_done uuid now t p employee_no reason devices (begin (length devices) db)) in
      for_each-still (credentials_step uuid later t p employee_no reason2) (λ v. Idle ops v)
        (credentials_open t p ops) devices
        (for_each (person_step uuid later p employee_no reason2) devices
          (begin (length devices) second))
        (λ v d h i. credentials_step-Idle uuid later t p employee_no reason2 ops v d h i)
        (credentials_done uuid now t p employee_no reason devices persons)
        (for_each-still (person_step uuid later p employee_no reason2) (λ v. Idle ops v)
          (person_open t p ops) devices (begin (length devices) second)
          (λ v d h i. person_step-Idle uuid later t p employee_no reason2 ops v d h i) persons_open
          (record { kept = same; empty = refl; unqueued = refl; unasked = refl }))

  again-sync_for :
      (credentials : Bool) (o : Option Text)
      → (let once = (sync_for uuid now t p reason credentials o devices db).0 in
          let twice = sync_for uuid later t p reason2 credentials o devices once in
          (twice.0.operations ≡ once.operations) × (twice.1.queued ≡ 0) × (twice.1.manual ≡ 0))
  again-sync_for credentials none = (refl, refl, refl)
  again-sync_for credentials (some number) =
      let once = (sync_for uuid now t p reason credentials (some number) devices db).0 in
      let idle = again-sync_work number credentials once refl in
      (run-Idle once.operations _ idle, idle.unqueued, idle.unasked)

-- Pressing sync a second time queues nothing: for the same person and terminals, at any later time and
-- for any reason, a second `syncPersonToDevices` leaves the operations as the first left them, and
-- reports none queued and none left to an operator.
pub again-sync_person_to_devices :
    (uuid : ℕ → Key) (now later : ℕ) (t : Tables) (p : PersonRef) (reason reason2 : Text)
    (credentials : Bool) (devices : List SyncDevice) (db : Db)
    → (let once = (sync_person_to_devices uuid now t p reason credentials devices db).0 in
        let twice = sync_person_to_devices uuid later t p reason2 credentials devices once in
        (twice.0.operations ≡ once.operations) × (twice.1.queued ≡ 0) × (twice.1.manual ≡ 0))
unfolding sync_person_to_devices
again-sync_person_to_devices uuid now later t p reason reason2 credentials devices db =
    again-sync_for uuid now later t p reason reason2 devices db credentials (has_employee_no p)
