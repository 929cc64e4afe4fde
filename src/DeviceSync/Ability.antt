-- ===== src/DeviceSync/Ability.antt =====
-- What an agent has to be capable of for each operation that `syncPersonToDevices` of
-- src/device-sync.ts leaves to it.
use estatemate_minmoe.Prelude.{
  Bool, true, false, not, ◌&&◌, ◌||◌, Option, none, some, List, [], ◌∷◌, ◌==◌, if◌then◌else◌, any,
  all, ◌≡◌, refl, arith, ==_refl,
}
use estatemate_minmoe.Hardware.{Key, is_pending, is_null}
use estatemate_minmoe.Credentials.{
  DeviceOperation, OperationKind, upload_fingerprint, upsert_card, disable_card, same_kind,
}
use estatemate_minmoe.DeviceSync.{
  SyncDevice, Capture, Capability, agent_can, card, person, fingerprint,
}
use estatemate_minmoe.DeviceSync.State.{delivery}
use estatemate_minmoe.DeviceSync.Rows.{capture_key}

-- What an agent has to be capable of to apply an operation that this module queues.
abbrev pub needed : OperationKind → Capability
needed OperationKind.upsert_person = person
needed OperationKind.delete_person = person
needed OperationKind.upload_fingerprint = fingerprint
needed _ = card

abbrev pub is_able : List SyncDevice → Capability → Key → Bool
is_able devices capability device = any (λ d. d.id == device && agent_can d capability) devices

pub all-three :
    (f g h : SyncDevice → Bool) (ds : List SyncDevice)
    → all f ds ≡ true
    → all g ds ≡ true
    → all h ds ≡ true
    → all (λ d. f d && g d && h d) ds ≡ true
all-three f g h [] a b c = refl
all-three f g h (d ∷ ds) a b c = ground (arith, all-three f g h ds)

-- An operation that waits for an agent is for a terminal whose agent can apply it, and carries a template
-- if it uploads a finger.
abbrev pub is_fit : List SyncDevice → DeviceOperation → Bool
is_fit devices o =
    not (is_pending o.status)
    || is_able devices (needed o.operation) o.device_id
      && (not (same_kind o.operation upload_fingerprint) || not (is_null o.capture_id))

pub able_self :
    (capability : Capability) (ds zs : List SyncDevice)
    → ((k : Key) → is_able ds capability k ≡ true → is_able zs capability k ≡ true)
    → all (λ d. not (agent_can d capability) || is_able zs capability d.id) ds ≡ true
able_self capability [] zs k = refl
able_self capability (d ∷ ds) zs k =
    let rest = able_self capability ds zs (λ i h. k i (ground arith)) in
    ground (arith, k d.id, ==_refl d.id, rest)

pub fit-when :
    (ready able : Bool)
    → (ready ≡ true → able ≡ true)
    → (not (is_pending (delivery ready)) || able) ≡ true
fit-when true able k = k refl
fit-when false able k = refl

pub card-able :
    (devices : List SyncDevice) (b : Bool) (k : Key)
    → is_able devices card k ≡ true
    → (is_able devices (needed (if b then upsert_card else disable_card)) k
        && (not (same_kind (if b then upsert_card else disable_card) upload_fingerprint) || false))
      ≡ true
card-able devices true k h = ground (arith, h)
card-able devices false k h = ground (arith, h)

pub has_key : (o : Option Capture) → is_null o ≡ false → is_null (capture_key o) ≡ false
has_key (some c) h = refl
has_key none h = grind arith
