-- ===== src/Web.antt =====
-- The endpoints under web/routes.
pub mod RunnerApi
pub mod Auth
pub mod Registration
pub mod Login
pub mod Github
pub mod Users
pub mod ApiKeys
pub mod SecretsPages
pub mod Notifications
