-- ===== src/SignIn.antt =====
-- Signing in and recovering a password: src/sign-in.ts, and the routes `/api/auth/login`,
-- `/api/auth/forgot-password` and `/api/auth/reset-password` of src/index.ts.
pub mod Values
pub mod Attempts
pub mod Login
pub mod Resets
pub mod Recovery
pub mod Tests
