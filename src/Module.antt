-- ===== src/Module.antt =====
-- src/modules/module.h, module.cpp: what every module does with requests of clients (MtbModule), what
-- it tells of itself, and what the callbacks of its commands do; modules with outputs as a whole.
pub mod Values
pub mod Info
pub mod Requests
pub mod Replies
pub mod Io
pub mod Activating
pub mod Failing
pub mod Reading
pub mod Saving
pub mod Upgrading
