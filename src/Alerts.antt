-- ===== src/Alerts.antt =====
-- harness/alerts.py: what is sent of an alert or a finished run, and to whom. The rendering of a template (`render`,
-- none where it raises), the parsing and printing of JSON, the text of a value (`str`), `lower`, and the HMAC of a text
-- are arguments.
pub mod Payloads
pub mod Channels
pub mod Delivered
pub mod Dispatched
