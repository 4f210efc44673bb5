-- ===== src/Cmd/Laws.antt =====
-- Laws of the commands of src/mtbusb/mtbusb-commands.h: wire format, conflicts, answers.
use mtb_daemon.Base.{ℕ, ◌≡◌, ◌⊎◌, refl, none, some, List, [], ◌∷◌, take, arith}
use mtb_daemon.Common.BusRecv
use mtb_daemon.Cmd.{Body, usb_info_request, forward, get_bytes, conflict}
use mtb_daemon.Cmd.Respond.{process_usb_response, process_bus_response}

-- The bytes of a command for MTBbus begin with 0x10, the module's address and the command's code.
pub get_bytes-forward :
    (b : Body) (m code : ℕ)
    → forward b ≡ some (m, code)
    → take 3 (get_bytes b) ≡ 0x10 ∷ m ∷ code ∷ []
unfolding forward get_bytes
get_bytes-forward usb_info_request m code h = ground arith
get_bytes-forward _ m code h = ground arith

-- A command is either for MTB-USB or for MTBbus: at most one of the two kinds of message answers it.
process_response_exclusive :
    (b : Body) (usb bus : ℕ) (bytes : List ℕ)
    → (process_usb_response b usb ≡ none) ⊎ (process_bus_response b bus bytes ≡ none)
unfolding process_usb_response process_bus_response
process_response_exclusive usb_info_request usb bus bytes = ground arith
process_response_exclusive _ usb bus bytes = ground arith

-- The event that inputs have changed answers no command.
pub process_bus_response-input_changed :
    (b : Body) (bytes : List ℕ) → process_bus_response b BusRecv.input_changed bytes ≡ none
unfolding process_bus_response
process_bus_response-input_changed usb_info_request bytes = refl
process_bus_response-input_changed _ bytes = ground arith

pub conflict_comm : (a b : Body) → conflict a b ≡ conflict b a
unfolding conflict
conflict_comm a b = ground arith
