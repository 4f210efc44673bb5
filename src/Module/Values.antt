-- ===== src/Module/Values.antt =====
-- src/modules/module.cpp, dvRepr, and the state of the diagnostics: what is read of diagnostic values.
use mtb_daemon.Base.{
  ℕ, suc, ◌-◌, ◌/◌, ◌%◌, ◌^◌, Bool, true, false, not, ◌||◌, none, some, List, [], ◌∷◌, bit, get_or,
  ltb, leb, length, ◌==◌, if◌then◌else◌,
}
use Prim.Native.String.{String, ◌++◌}
use mtb_daemon.Json.{Json, bool, number, negative, string, Fields, end, field}
use mtb_daemon.Utils.{pack}
use mtb_daemon.Common.{dv_state}
use mtb_daemon.Common.Texts.{dv_common_to_str}
use mtb_daemon.Uni.{IoKind, IoModule, module_event, effect}

-- The numbers of DVCommon.
abbrev pub dv_version : ℕ
dv_version = 0

abbrev pub dv_uptime : ℕ
dv_uptime = 2

abbrev pub dv_errors : ℕ
dv_errors = 10

abbrev pub dv_warnings : ℕ
dv_warnings = 11

-- static_cast<int> of 32 bits, put into JSON.
unfoldable pub as_signed : ℕ → ℕ → Json
as_signed width n = if ltb n (2 ^ (width - 1)) then number n else negative (2 ^ width - suc n)

abbrev first : List ℕ → ℕ
first bytes = get_or bytes 0 0

unfoldable pub packed : (ℕ → Json) → ℕ → String → List ℕ → Fields
packed as_json beyond key bytes = elim (pack beyond bytes) [
  | none ↦ end
  | some n ↦ field key (as_json n) end
]

-- MtbModule::dvRepr; `show` is QString::number, `beyond` the byte that `pack` reads behind the data.
unfoldable pub dv_repr : (ℕ → String) → ℕ → ℕ → List ℕ → Fields
dv_repr show beyond dv bytes =
    if ltb (length bytes) 1
    then end
    else if dv == dv_version
    then field "version" (string (show (first bytes / 16 % 16) ++ ("." ++ show (first bytes % 16))))
        end
    else if dv == dv_state
    then field "warnings" (bool (bit (first bytes) 1))
        (field "errors" (bool (bit (first bytes) 0)) end)
    else if dv == dv_uptime
    then packed (as_signed 32) beyond "uptime_seconds" bytes
    else if dv == dv_warnings
    then field "extrf" (bool (bit (first bytes) 0)) (
        field "borf" (bool (bit (first bytes) 1)) (
          field "wdrf" (bool (bit (first bytes) 2)) (
            field "timer_miss" (bool (bit (first bytes) 4))
              (field "vcc_oscilating" (bool (bit (first bytes) 5)) end))))
    else if leb 16 dv
    then (if leb dv 19 then packed number beyond (dv_common_to_str dv) bytes else end)
    else end

-- Whether some byte is not 0.
unfoldable pub any_non_zero : List ℕ → Bool
any_non_zero [] = false
any_non_zero (b ∷ bs) = not (b == 0) || any_non_zero bs

abbrev differ : Bool → Bool → Bool
differ true b = not b
differ false b = b

module _ {k : IoKind} where
  -- mtbBusDiagStateChanged(bool, bool).
  unfoldable pub set_diag_state : Bool → Bool → IoModule k → IoModule k
  set_diag_state is_error is_warning s =
      let known = record s {
        bus_module_info = record s.bus_module_info { error = is_error; warning = is_warning };
      } in
      if differ is_error s.bus_module_info.error || differ is_warning s.bus_module_info.warning
      then effect (module_event none false) known
      else known

  unfoldable pub mtb_bus_diag_state_changed : List ℕ → IoModule k → IoModule k
  mtb_bus_diag_state_changed [] s = s
  mtb_bus_diag_state_changed (b ∷ bytes) s = set_diag_state (bit b 0) (bit b 1) s

  -- What the answer to a request for a diagnostic value changes.
  unfoldable pub note_diag_value : ℕ → List ℕ → IoModule k → IoModule k
  note_diag_value dv bytes s =
      if dv == dv_state
      then mtb_bus_diag_state_changed bytes s
      else if dv == dv_errors
      then set_diag_state (any_non_zero bytes) s.bus_module_info.warning s
      else if dv == dv_warnings
      then set_diag_state s.bus_module_info.error (any_non_zero bytes) s
      else s
