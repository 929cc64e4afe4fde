-- ===== src/Lib.antt =====
-- A model of the server of EstateMate, the Worker of src/index.ts with its helper modules: a portal
-- of a housing estate that keeps visitor passes, sends them to access-control terminals through
-- agents, signs its users in, keeps bills, properties and bookings, writes its persons to the
-- terminals, and reads bulk imports.
--
-- Parts, and the files that model them:
--   Prelude       texts, tests, lists, and tables as lists of rows with SELECT, UPDATE and COUNT
--   Hardware      terminals, their agents and the statuses of operations (src/index.ts)
--   Visitor       the device accounts of visitor passes (src/index.ts): Visitor/Tables the tables
--                 `visitor_requests` and `visitor_device_operations`; Visitor/Planning the loop over
--                 the terminals that `queueVisitorDeviceOperations` and `queueVisitorDeviceRemovals`
--                 share; Visitor/Accounts these functions and `refreshVisitorDeviceAccountState`;
--                 Visitor/Sweep `releaseExpiredVisitorDeviceAccounts` and `syncActiveVisitorPasses`
--   VisitorPass   `evaluateVisitorPass` (src/visitor-pass.ts)
--   Gate          POST /api/visitors/:id/decision, which evaluates a pass and writes the visitor and
--                 the scan (src/index.ts)
--   VisitorAccount  the readers of src/visitor-account.ts
--   EmployeeId    src/employee-id.ts, whose `deviceEmployeeNo` the revocations of Visitor/Accounts use
--   SignIn        src/sign-in.ts (SignIn/Values), the throttle over `auth_attempts` (SignIn/Attempts),
--                 the routes /api/auth/login (SignIn/Login), /api/auth/forgot-password and
--                 /api/auth/reset-password (SignIn/Resets, SignIn/Recovery) of src/index.ts
--   Agent         `handleIsapiAgentOperations` and `handleIsapiAgentOperationResult` (src/index.ts): how an
--                 agent claims operations and reports on them
--   Presence      `markTerminalStreamDown`, `markTerminalStreamUp` and `expireStalePresence` (src/index.ts),
--                 as far as terminals go
--   Credentials   cards and fingers, and the work for terminals that `createDeviceOperations` and
--                 `createFingerprintOperations` queue for them (src/index.ts)
--   Billing       `reconcileBill`, POST /api/payments and PATCH /api/payments/:id/review (src/index.ts)
--   Fees          `enforceFacilityFees` (src/index.ts), which reads the bills of Billing and changes the
--                 cards and fingers of Credentials
--   Tenure        `propertyRelationship`, `isPrimaryResident` and `primaryResidentPropertyId`, with
--                 `deactivatePrimaryHousehold` (Tenure/Household), `completePropertyTransfer`
--                 (Tenure/Transfer) and `processPropertyLifecycle` (Tenure/Lifecycle), which runs the
--                 other two (src/index.ts)
--   Booking       facility bookings (src/index.ts): `bookingOverlapId` and the bill of a booking in Booking,
--                 POST /api/facility-bookings in Booking/Request, PATCH /api/facility-bookings/:id in
--                 Booking/Decide; a request asks Tenure for the property of its resident
--   DeviceSync    src/device-sync.ts, over the cards, fingers and operations of Credentials: `syncDevices`
--                 and `agentCan` in DeviceSync, `setDevicePersonState` in DeviceSync/State, the rows that are
--                 queued in DeviceSync/Rows, `syncPersonToDevices` in DeviceSync/Queueing,
--                 `removePersonFromDevices` in DeviceSync/Removal, `deviceSyncOverview` in
--                 DeviceSync/Overview
--   Csv           `parseCsv`, `requireHeaders`, `moneyToMinor` (src/csv.ts) and `csvCell` (src/index.ts)
--
-- A handler is a function from the tables to its answer and the tables after it; a table is the list
-- of its rows in the order of insertion. Ids are numbers, and the ids that `crypto.randomUUID` draws
-- are a parameter, a function of how many were drawn. Times are numbers: seconds, or in the gate
-- milliseconds; the time of a request is an argument. A text is the list of its UTF-16 units, and a
-- number of JavaScript that the code keeps whole is a natural number. Messages to people are data
-- types, one constructor a message.
--
-- Bounds: the printing of a number runs on fuel, one more than the number, and takes one step a digit.
-- The limits of the queries (200 and 500 passes, 100 transfers) and the ten tries for a free reference are kept. What
-- Web Crypto computes (hashes, the check of a password, random codes) is a parameter of SignIn.
--
-- Not modelled: failures of the database (but for the constraints that Gate and Fees name), the audit log, HTTP and JSON reading, the parsing of dates
-- (src/datetime.ts), the tokens of sessions (src/security.ts), the portal and the native apps.
pub mod Prelude
pub mod Booking
pub mod Csv
pub mod Billing
pub mod Credentials
pub mod Fees
pub mod DeviceSync
pub mod EmployeeId
pub mod VisitorAccount
pub mod Hardware
pub mod Visitor
pub mod VisitorPass
pub mod Gate
pub mod SignIn
pub mod Tenure
pub mod Agent
pub mod Presence
