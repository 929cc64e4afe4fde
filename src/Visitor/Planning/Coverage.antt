-- ===== src/Visitor/Planning/Coverage.antt =====
-- What the prepared batch achieves: every device of the loop ends with an operation that the loop
-- would leave alone.
use estatemate_minmoe.Prelude.{
  ℕ, true, false, Option, none, some, List, [], ◌∷◌, last_of-append, last_of-update, ◌≡◌, refl, sym,
  subst, arith, All, All-append, ==_refl,
}
use estatemate_minmoe.Prelude.Text.{Text}
use estatemate_minmoe.Hardware.{Key, Device, DeviceConfig, is_failed}
use estatemate_minmoe.Visitor.Tables.{VisitorOperation, Operation, same_operation}
use estatemate_minmoe.Visitor.Planning.{
  Statement, execute, batch, Decision, leave, create, retry_failed, refresh_stale, is_current,
  new_row, prepare, plan, visitor_operation_delivery,
}
use estatemate_minmoe.Visitor.Planning.Tracking
use estatemate_minmoe.Visitor.Planning.Tracking.{DecidesWell}

delivery_is_live :
    (configs : List DeviceConfig) (d : Device)
    → is_failed (visitor_operation_delivery configs d) ≡ false
unfolding visitor_operation_delivery
delivery_is_live configs d = ground arith

same_operation_refl : (k : VisitorOperation) → same_operation k k ≡ true
same_operation_refl VisitorOperation.upsert_visitor = refl
same_operation_refl VisitorOperation.revoke_visitor = refl

module _ (uuid : ℕ → Key) (now : ℕ) (pass : Key) (kind : VisitorOperation) (payload : Text)
    (decide : Option Operation → Decision) (configs : List DeviceConfig)
    (w : DecidesWell payload decide) where
  abbrev pub current : Key → List Operation → Option Operation
  current = Tracking.current now pass kind payload decide w

  abbrev pub CoveredBy : Option Operation → Type 0
  CoveredBy = Tracking.CoveredBy now pass kind payload decide w

  abbrev Tracks : Option Operation → Option Operation → Type 0
  Tracks = Tracking.Tracks now pass kind payload decide w

  module _ (existing : List Operation) where
    abbrev Allowed : Statement → Type 0
    Allowed = Tracking.Allowed now pass kind payload decide w existing

    abbrev prepared : Device → Option Operation → ℕ → List Statement
    prepared d o drawn = (prepare uuid now pass kind payload decide configs d (decide o) o drawn).0

    prepared-Allowed :
        (d : Device) (o : Option Operation) (drawn : ℕ)
        → current d.id existing ≡ o
        → All Allowed (prepared d o drawn)
    unfolding prepare
    prepared-Allowed d none drawn e =
        subst
          (λ c. All Allowed (prepare uuid now pass kind payload decide configs d c none drawn).0)
          (sym w.creates) ((refl, delivery_is_live configs d, e), tt)
    prepared-Allowed d (some r) drawn e = go (decide (some r)) refl
      where
        go :
            (c : Decision)
            → decide (some r) ≡ c
            → All Allowed (prepare uuid now pass kind payload decide configs d c (some r) drawn).0
        go leave h = tt
        go create h = absurd (w.finds r h)
        go retry_failed h = ((refl, delivery_is_live configs d), tt)
        go refresh_stale h = (refl, tt)

    new_row-is_current :
        (d : Device) (drawn : ℕ)
        → is_current pass kind d.id (new_row uuid now pass kind payload decide configs d drawn)
          ≡ true
    new_row-is_current d drawn = simp (==_refl, same_operation_refl)

    prepared-Covered :
        (d : Device) (o : Option Operation) (drawn : ℕ) (operations : List Operation)
        → Tracks o (current d.id operations)
        → CoveredBy (current d.id (batch now (prepared d o drawn) operations))
    unfolding prepare batch execute
    prepared-Covered d none drawn operations t =
        subst
          (λ c. CoveredBy (
            current d.id (
              batch now (prepare uuid now pass kind payload decide configs d c none drawn).0
                operations)))
          (sym w.creates)
          (rw (last_of-append, new_row-is_current d drawn)
            (w.settles (new_row uuid now pass kind payload decide configs d drawn) refl
              (delivery_is_live configs d)))
    prepared-Covered d (some r) drawn operations t = go (decide (some r)) refl
      where
        go :
            (c : Decision)
            → decide (some r) ≡ c
            → CoveredBy (
                current d.id (
                  batch now
                    (prepare uuid now pass kind payload decide configs d c (some r) drawn).0
                    operations))
        go leave h = Tracking.leave-Covered now pass kind payload decide w existing r _ h t
        go create h = absurd (w.finds r h)
        go retry_failed h = rw last_of-update (
            Tracking.retry-Covered now pass kind payload decide w existing r _ _
              (delivery_is_live configs d) t)
        go refresh_stale h =
            rw last_of-update
              (Tracking.refresh-Covered now pass kind payload decide w existing r _ h t)

    plan-Allowed :
        (ds : List Device) (drawn : ℕ)
        → All Allowed (plan uuid now pass kind payload decide configs existing ds drawn).0
    unfolding plan
    plan-Allowed [] drawn = tt
    plan-Allowed (d ∷ ds) drawn =
        All-append Allowed (prepared d (current d.id existing) drawn) _
          (prepared-Allowed d (current d.id existing) drawn refl) (plan-Allowed ds _)

    abbrev pub AllCovered : List Device → List Operation → Type 0
    AllCovered ds operations = All (λ d. CoveredBy (current d.id operations)) ds

    -- The batch covers every device of the loop.
    plan-AllCovered :
        (ds : List Device) (drawn : ℕ) (operations : List Operation)
        → ((k : Key) → Tracks (current k existing) (current k operations))
        → AllCovered ds (
            batch now
              (plan uuid now pass kind payload decide configs existing ds drawn).0
              operations)
    unfolding plan
    plan-AllCovered [] drawn operations t = tt
    plan-AllCovered (d ∷ ds) drawn operations t =
        let o = current d.id existing in
        let here = prepared d o drawn in
        let next = (prepare uuid now pass kind payload decide configs d (decide o) o drawn).1 in
        let later = (plan uuid now pass kind payload decide configs existing ds next).0 in
        let allowed = prepared-Allowed d o drawn refl in
        let ih = plan-AllCovered ds next (batch now here operations) (λ k.
          Tracking.batch-Tracks now pass kind payload decide w existing here k operations allowed
            (t k)) in
        subst (AllCovered (d ∷ ds))
          (sym
            (Tracking.batch-append now pass kind payload decide w existing here later operations))
          (
            Tracking.batch-Covered now pass kind payload decide w existing later d.id _
                (plan-Allowed ds next) (prepared-Covered d o drawn operations (t d.id)),
            ih,
          )

  pub batch-plan_covers :
      (ds : List Device) (drawn : ℕ) (operations : List Operation)
      → AllCovered operations ds (
          batch now
            (plan uuid now pass kind payload decide configs operations ds drawn).0
            operations)
  batch-plan_covers ds drawn operations =
      plan-AllCovered operations ds drawn operations
        (Tracking.Tracks-refl now pass kind payload decide w operations)

  decide-CoveredBy : (o : Option Operation) → CoveredBy o → decide o ≡ leave
  decide-CoveredBy none c = absurd c
  decide-CoveredBy (some r) c = c

  -- A loop over covered devices prepares nothing, and draws no id.
  pub plan_covered :
      (ds : List Device) (drawn : ℕ) (existing : List Operation)
      → AllCovered existing ds existing
      → plan uuid now pass kind payload decide configs existing ds drawn ≡ ([], drawn)
  unfolding plan
  plan_covered [] drawn existing c = refl
  plan_covered (d ∷ ds) drawn existing (c, cs) =
      rw (decide-CoveredBy _ c) (rw (plan_covered ds drawn existing cs))
