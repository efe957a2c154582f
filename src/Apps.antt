-- ===== src/Apps.antt =====
-- harness/app_manager.py and harness/loader.py: the URLs of an app definition and its files. `urlsplit` gives the
-- scheme and the host of a text, or raises; `strip` and `lower` are Python's; `is_space` is the class \s.
pub mod Urls
pub mod Files
