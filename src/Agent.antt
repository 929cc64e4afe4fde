-- ===== src/Agent.antt =====
-- The device agents' side of hardware operations in src/index.ts: `handleIsapiAgentOperations`, by which
-- an agent claims work, and `handleIsapiAgentOperationResult`, by which it reports, as far as the rows
-- of `device_operations` and `visitor_device_operations` go. Who may call is checked before; what a
-- report does to persons, fingerprints and logs is left out. Times are seconds.
pub mod Final
pub mod Exclusive
pub mod Tests
use estatemate_minmoe.Prelude.{
  ℕ, ◌+◌, Bool, true, false, not, ◌&&◌, ◌||◌, Option, none, some, List, [], ◌∷◌, ◌++◌, ◌==◌, leb,
  ltb, if◌then◌else◌, any, take, select, update, count, first, value_or, min, max,
}
use estatemate_minmoe.Prelude.Text.{Text, lit, eqt, trim}
use estatemate_minmoe.Hardware.{
  Key, Device, DeviceConfig, OperationStatus, is_pending, is_sent, is_failed, holds_key,
}

-- The columns that the two tables share; `visitor_request_id` is empty in `device_operations`.
pub record Operation : Type 0 where
  pub id : Key
  pub device_id : Key
  pub visitor_request_id : Option Key
  pub operation : Text
  pub payload_json : Text
  pub status : OperationStatus
  pub error_message : Option Text
  pub attempts : ℕ
  pub agent_id : Option Key
  pub created_at : ℕ
  pub updated_at : ℕ

pub record Db : Type 0 where
  pub devices : List Device
  pub configs : List DeviceConfig
  pub visitors : List Key
  pub device_operations : List Operation
  pub visitor_operations : List Operation

pub data OperationTable : Type 0 where
  device_table visitor_table : OperationTable

-- `status='pending' OR (status='sent' AND updated_at < datetime('now','-… '))`
abbrev pub is_waiting : ℕ → ℕ → Operation → Bool
is_waiting now patience o =
    is_pending o.status || is_sent o.status && ltb (o.updated_at + patience) now

abbrev pub patience_of : Operation → ℕ
patience_of o = if eqt o.operation (lit "capture_fingerprint") then 600 else 120

-- The joins with the terminal and with a configuration that names the agent.
abbrev pub is_assigned : Db → Key → Operation → Bool
is_assigned db agent o =
    any (λ c. c.device_id == o.device_id && holds_key c.agent_id agent && c.sync_enabled) db.configs
    && any (λ d. d.id == o.device_id) db.devices

abbrev pub has_visitor : Db → Operation → Bool
has_visitor db o = any (λ v. holds_key o.visitor_request_id v) db.visitors

-- `ORDER BY created_at, CASE operation WHEN 'upsert_person' THEN 0 ELSE 1 END`
abbrev pub comes_before : Operation → Operation → Bool
comes_before a b =
    ltb a.created_at b.created_at
    || a.created_at == b.created_at
      && (eqt a.operation (lit "upsert_person") || not (eqt b.operation (lit "upsert_person")))

abbrev pub Offer : Type 0
Offer = OperationTable × Operation

pub insert_offer : Offer → List Offer → List Offer
insert_offer o [] = o ∷ []
insert_offer o (p ∷ ps) =
    let rest = insert_offer o ps in if comes_before o.1 p.1 then o ∷ p ∷ ps else p ∷ rest

pub order_offers : List Offer → List Offer
order_offers [] = []
order_offers (o ∷ os) = insert_offer o (order_offers os)

pub offers_of : OperationTable → List Operation → List Offer
offers_of table [] = []
offers_of table (o ∷ os) = (table, o) ∷ offers_of table os

-- `Math.min(100, Math.max(1, limit))`, 20 by default
abbrev pub limit_of : Option ℕ → ℕ
limit_of requested = min 100 (max 1 (value_or requested 20))

-- The operations offered to the agent.
pub offered : ℕ → Key → Option ℕ → Db → List Offer
offered now agent requested db = take (limit_of requested) (
    order_offers (
      offers_of device_table (
        select (λ o. is_assigned db agent o && is_waiting now (patience_of o) o)
          db.device_operations)
      ++ offers_of visitor_table (
          select (λ o. is_assigned db agent o && has_visitor db o && is_waiting now 120 o)
            db.visitor_operations)))

abbrev pub is_claimed_by : ℕ → Operation → Operation → Bool
is_claimed_by now offer o =
    o.id == offer.id && o.device_id == offer.device_id && is_waiting now 120 o

abbrev pub claimed : ℕ → Key → Operation → Operation
claimed now agent o = record o {
  status = OperationStatus.sent;
  attempts = o.attempts + 1;
  agent_id = some agent;
  updated_at = now;
}

-- One UPDATE of the batch.
pub claim_one : ℕ → Key → Offer → Db → Db
claim_one now agent (device_table, offer) db = record db {
  device_operations = update (is_claimed_by now offer) (claimed now agent) db.device_operations;
}
claim_one now agent (visitor_table, offer) db = record db {
  visitor_operations = update (is_claimed_by now offer) (claimed now agent) db.visitor_operations;
}

abbrev pub table_of : OperationTable → Db → List Operation
table_of device_table db = db.device_operations
table_of visitor_table db = db.visitor_operations

-- The batch, one offer after the other, and the offers whose UPDATE changed a row.
pub claim_all : ℕ → Key → List Offer → Db → List Offer × Db
claim_all now agent [] db = ([], db)
claim_all now agent (o ∷ os) db =
    let rest = claim_all now agent os (claim_one now agent o db) in
    if leb 1 (count (is_claimed_by now o.1) (table_of o.0 db)) then (o ∷ rest.0, rest.1) else rest

-- `handleIsapiAgentOperations`
pub claim_operations : ℕ → Key → Option ℕ → Db → List Offer × Db
claim_operations now agent requested db = claim_all now agent (offered now agent requested db) db

pub data Outcome : Type 0 where
  succeeded : Outcome
  refused : Option Text → Outcome

pub data ResultAnswer : Type 0 where
  recorded not_found : ResultAnswer

-- A report without a message gets one; a message is trimmed and cut.
abbrev pub error_text : Option Text → Text
error_text none = lit "ISAPI agent reported failure"
error_text (some message) =
    let cut = take 1000 (trim message) in
    if eqt cut [] then lit "ISAPI agent reported failure" else cut

abbrev pub reported : ℕ → Key → Outcome → Operation → Operation
reported now agent succeeded o = record o {
  status = OperationStatus.applied;
  error_message = none;
  agent_id = some agent;
  updated_at = now;
}
reported now agent (refused message) o = record o {
  status = OperationStatus.failed;
  error_message = some (error_text message);
  agent_id = some agent;
  updated_at = now;
}

-- `id=? AND status IN ('pending','sent','failed') AND device_id IN (SELECT …)`
abbrev pub is_reportable : Db → Key → Key → Operation → Bool
is_reportable db agent id o =
    o.id == id
    && (is_pending o.status || is_sent o.status || is_failed o.status)
    && any (λ c. c.device_id == o.device_id && holds_key c.agent_id agent) db.configs

-- `handleIsapiAgentOperationResult`: the table of devices first, then that of visitors.
pub report_result : ℕ → Key → Key → Outcome → Db → ResultAnswer × Db
report_result now agent id outcome db =
    if leb 1 (count (is_reportable db agent id) db.device_operations)
    then (
      recorded,
      record db {
        device_operations =
            update (is_reportable db agent id) (reported now agent outcome) db.device_operations;
      },
    )
    else if leb 1 (count (is_reportable db agent id) db.visitor_operations)
    then (
      recorded,
      record db {
        visitor_operations =
            update (is_reportable db agent id) (reported now agent outcome) db.visitor_operations;
      },
    )
    else (not_found, db)
