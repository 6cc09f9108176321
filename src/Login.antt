-- ===== src/Login.antt =====
-- The routes that establish and end a login: client/app/routes/auth.callback.tsx and
-- client/app/routes/login.tsx.
pub mod Callback
pub mod Start
