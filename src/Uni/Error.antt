-- ===== src/Uni/Error.antt =====
-- src/errors.h: the codes with which the handlers of a universal module refuse a request.
use mtb_daemon.Base.{ℕ}

abbrev pub invalid_port : ℕ
invalid_port = 1101

abbrev pub failed : ℕ
failed = 1102

abbrev pub already_writing : ℕ
already_writing = 1110

abbrev pub upgrading_fw : ℕ
upgrading_fw = 3110

abbrev pub in_bootloader_error : ℕ
in_bootloader_error = 3111

abbrev pub config_setting : ℕ
config_setting = 3112

abbrev pub invalid_dv : ℕ
invalid_dv = 1106

abbrev pub unsupported_command : ℕ
unsupported_command = 0x1002
