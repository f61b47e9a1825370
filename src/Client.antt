-- ===== src/Client.antt =====
-- The logic of the web client, frontend/: redirects, stores, requests and the candidates of a call.
pub mod Redirect
pub mod Notifications
pub mod Activity
pub mod Calls
pub mod Api
pub mod Session
pub mod Dashboard
