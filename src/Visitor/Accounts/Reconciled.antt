-- ===== src/Visitor/Accounts/Reconciled.antt =====
-- Reconciliation: queueing a pass a second time changes nothing, and queueing reaches every terminal.
use estatemate_minmoe.Prelude.{
  ℕ, Bool, true, false, not, ◌&&◌, Option, none, some, List, [], ◌∷◌, ◌==◌, leb, length, select,
  update, last_of, ◌≡◌, refl, inl, inr, arith, All, Bool-cases,
}
use estatemate_minmoe.Prelude.Text.{Text, eqt_iff}
use estatemate_minmoe.Hardware.{Key, Device, DeviceConfig, is_failed, is_pending}
use estatemate_minmoe.Visitor.Tables.{
  VisitorOperation, upsert_visitor, Operation, Pass, Db, is_provisioned,
}
use estatemate_minmoe.Visitor.Planning.{
  Statement, batch, plan, is_current, Decision, leave, upsert_decision, revoke_decision,
}
use estatemate_minmoe.Visitor.Planning.Tracking.{DecidesWell}
use estatemate_minmoe.Visitor.Planning.Coverage.{
  CoveredBy, AllCovered, batch-plan_covers, plan_covered,
}
use estatemate_minmoe.Visitor.Accounts.{mark_provisioned, targeted, queue_visitor_device_operations}

upsert-DecidesWell : (payload : Text) → DecidesWell payload (upsert_decision payload)
unfolding upsert_decision
upsert-DecidesWell payload = record {
  creates = refl;
  settles = λ r same live. ground (arith, eqt_iff r.payload_json payload);
  left_is_live = λ r h. ground arith;
  stale_is_live = λ r h. ground arith;
  finds = λ r. ground arith;
}

revoke-DecidesWell : (payload : Text) → DecidesWell payload revoke_decision
unfolding revoke_decision
revoke-DecidesWell payload = record {
  creates = refl;
  settles = λ r same live. ground arith;
  left_is_live = λ r h. ground arith;
  stale_is_live = λ r h. ground arith;
  finds = λ r. ground arith;
}

update_twice {ℓ} :
    {A : Type ℓ} (p : A → Bool) (f g : A → A) (xs : List A)
    → ((x : A) → p (f x) ≡ false)
    → update p g (update p f xs) ≡ update p f xs
update_twice p f g [] h = refl
update_twice p f g (x ∷ xs) h = ground (arith, h x, update_twice p f g xs h)

mark_provisioned_twice :
    (now later : ℕ) (pass : Key) (passes : List Pass)
    → mark_provisioned later pass (mark_provisioned now pass passes)
      ≡ mark_provisioned now pass passes
unfolding mark_provisioned
mark_provisioned_twice now later pass passes =
    update_twice (λ p. p.id == pass && not (is_provisioned p.account_state)) _ _ passes
      (λ p. ground arith)

module _ (uuid : ℕ → Key) (now : ℕ) (db : Db) (pass : Key) (target : Option Key)
    (payload : Text) where
  abbrev planned : List Statement × ℕ
  planned =
      plan uuid now pass upsert_visitor payload (upsert_decision payload) db.configs db.operations
        (select (targeted target) db.devices) db.drawn

  abbrev provisioned_db : Db
  provisioned_db = record db {
    operations = batch now planned.0 db.operations;
    passes = mark_provisioned now pass db.passes;
    drawn = planned.1;
  }

  queue_some :
      leb (length (select (targeted target) db.devices)) 0 ≡ false
      → queue_visitor_device_operations uuid now db pass target payload
        ≡ (provisioned_db, length planned.0)
  unfolding queue_visitor_device_operations
  queue_some h = rw h

  queue_none :
      leb (length (select (targeted target) db.devices)) 0 ≡ true
      → queue_visitor_device_operations uuid now db pass target payload ≡ (db, 0)
  unfolding queue_visitor_device_operations
  queue_none h = rw h

  abbrev IsUpToDate : Db → Type 0
  IsUpToDate after =
      AllCovered uuid now pass upsert_visitor payload (upsert_decision payload) db.configs
        (upsert-DecidesWell payload) db.operations (select (targeted target) db.devices)
        after.operations

  provisioned_db-IsUpToDate : IsUpToDate provisioned_db
  provisioned_db-IsUpToDate =
      batch-plan_covers uuid now pass upsert_visitor payload (upsert_decision payload) db.configs
        (upsert-DecidesWell payload) (select (targeted target) db.devices) db.drawn db.operations

-- Reconciliation is idempotent: queueing the same account for a pass a second time, at any later or
-- earlier time, queues nothing and leaves the whole database as the first time left it.
pub queue_again :
    (uuid : ℕ → Key) (now later : ℕ) (db : Db) (pass : Key) (target : Option Key) (payload : Text)
    → queue_visitor_device_operations uuid later
        (queue_visitor_device_operations uuid now db pass target payload).0
        pass
        target
        payload
      ≡ ((queue_visitor_device_operations uuid now db pass target payload).0, 0)
unfolding batch
queue_again uuid now later db pass target payload =
    elim (Bool-cases (leb (length (select (targeted target) db.devices)) 0)) [
      | inl h ↦
          rw (queue_none uuid now db pass target payload h)
            (queue_none uuid later db pass target payload h)
      | inr h ↦
          let db' = provisioned_db uuid now db pass target payload in
          rw
            (
              queue_some uuid now db pass target payload h,
              queue_some uuid later db' pass target payload h,
            )
            (let again =
                plan_covered uuid later pass upsert_visitor payload (upsert_decision payload)
                  db.configs (upsert-DecidesWell payload) (select (targeted target) db.devices)
                  db'.drawn db'.operations
                  (provisioned_db-IsUpToDate uuid now db pass target payload) in
              rw (again, mark_provisioned_twice, batch) refl)
    ]

-- Each device has an operation of the kind for the pass, that has not failed and that carries this
-- payload if it is pending.
abbrev pub Reaches : Key → VisitorOperation → Text → List Operation → Device → Type 0
Reaches pass kind payload operations d =
    (r : Operation) × (last_of (is_current pass kind d.id) operations ≡ some r)
    × (is_failed r.status ≡ false)
    × (is_pending r.status ≡ true → r.payload_json ≡ payload)

All-map {ℓ κ κ'} :
    {A : Type ℓ} (P : A → Type κ) (Q : A → Type κ') (xs : List A)
    → ((x : A) → P x → Q x)
    → All P xs
    → All Q xs
All-map P Q [] f h = tt
All-map P Q (x ∷ xs) f (h, hs) = (f x h, All-map P Q xs f hs)

left-IsUpToDate :
    (payload : Text) (r : Operation)
    → upsert_decision payload (some r) ≡ leave
    → (is_failed r.status ≡ false) × (is_pending r.status ≡ true → r.payload_json ≡ payload)
unfolding upsert_decision
left-IsUpToDate payload r h = (ground arith, λ p. ground (arith, eqt_iff r.payload_json payload))

module _ (uuid : ℕ → Key) (now : ℕ) (pass : Key) (kind : VisitorOperation) (payload : Text)
    (decide : Option Operation → Decision) (configs : List DeviceConfig)
    (w : DecidesWell payload decide)
    (keeps : (r : Operation)
      → decide (some r) ≡ leave
      → (is_failed r.status ≡ false)
        × (is_pending r.status ≡ true → r.payload_json ≡ payload)) where
  CoveredBy-Reaches :
      (operations : List Operation) (d : Device)
      → CoveredBy uuid now pass kind payload decide configs w
          (last_of (is_current pass kind d.id) operations)
      → Reaches pass kind payload operations d
  CoveredBy-Reaches operations d = go (last_of (is_current pass kind d.id) operations) refl
    where
      go :
          (o : Option Operation)
          → last_of (is_current pass kind d.id) operations ≡ o
          → CoveredBy uuid now pass kind payload decide configs w o
          → Reaches pass kind payload operations d
      go none e c = absurd c
      go (some r) e c = (r, e, (keeps r c).0, (keeps r c).1)

All-empty {ℓ κ} : {A : Type ℓ} (P : A → Type κ) (xs : List A) → leb (length xs) 0 ≡ true → All P xs
All-empty P [] h = tt
All-empty P (x ∷ xs) h = absurd (ground arith)

-- After queueing, every enabled terminal that the pass is for has an operation that puts the account
-- there: its newest one for the pass has not failed, and carries this very account if it is pending,
-- that is if it waits for an agent.
pub queue-Reaches :
    (uuid : ℕ → Key) (now : ℕ) (db : Db) (pass : Key) (target : Option Key) (payload : Text)
    → All
        (Reaches pass upsert_visitor payload
          (queue_visitor_device_operations uuid now db pass target payload).0.operations)
        (select (targeted target) db.devices)
queue-Reaches uuid now db pass target payload =
    elim (Bool-cases (leb (length (select (targeted target) db.devices)) 0)) [
      | inl h ↦ All-empty _ _ h
      | inr h ↦ rw (queue_some uuid now db pass target payload h) (
          All-map _ _ (select (targeted target) db.devices)
            (CoveredBy-Reaches uuid now pass upsert_visitor payload (upsert_decision payload)
              db.configs (upsert-DecidesWell payload) (left-IsUpToDate payload)
              (provisioned_db uuid now db pass target payload).operations)
            (provisioned_db-IsUpToDate uuid now db pass target payload))
    ]
