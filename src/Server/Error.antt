-- ===== src/Server/Error.antt =====
-- src/errors.h: the codes that main.cpp answers with.
use mtb_daemon.Base.{ℕ}

abbrev pub invalid_json : ℕ
invalid_json = 1000

abbrev pub module_invalid_addr : ℕ
module_invalid_addr = 1100

abbrev pub invalid_speed : ℕ
invalid_speed = 1105

abbrev pub module_active : ℕ
module_active = 1107

abbrev pub file_cannot_access : ℕ
file_cannot_access = 1010

abbrev pub unknown_command : ℕ
unknown_command = 1020

abbrev pub device_disconnected : ℕ
device_disconnected = 2004

abbrev pub already_started : ℕ
already_started = 2012

abbrev pub forbidden : ℕ
forbidden = 403
