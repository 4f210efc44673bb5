-- ===== src/Uni/Upgrade.antt =====
-- src/modules/module.cpp: the upgrade of a module's firmware (fwUpgd…) and the reboot that ends it.
-- A handler that `mtbusb.send` calls back runs as a step of its own, after the handler that sends.
pub mod Laws
use mtb_daemon.Base.{
  ℕ, ◌*◌, ◌%◌, Bool, true, false, not, Option, none, some, List, [], ◌∷◌, if◌then◌else◌, ◌==◌,
}
use mtb_daemon.Cmd.{
  Body, module_fw_upgrade_req, module_info_request, module_fw_write_flash_status_request,
  module_fw_write_flash, module_reboot,
}
use mtb_daemon.Cmd.Reply.{ModuleInfo, in_bootloader}
use mtb_daemon.Firmware.{block_size}
use mtb_daemon.Uni.{
  IoKind, IoModule, ServerRequest, Callback, Rebooting, sent, timer, refused, done, module_event,
  for_upgrade, for_request, effect, upgrade_requested, upgrade_info, upgrade_status,
  upgrade_written, rebooted, reboot_info,
}

-- FwWriteFlashStatus::WritingFlash; MTB_MODULE_FWUPGD_ERROR, MTB_BUS_NO_RESPONSE.
abbrev pub writing_flash : ℕ
writing_flash = 1

abbrev pub fwupgd_error : ℕ
fwupgd_error = 3114

-- MTB_MODULE_REBOOTING.
abbrev pub module_rebooting : ℕ
module_rebooting = 3113

abbrev pub bus_no_response : ℕ
bus_no_response = 0x1012

module _ {k : IoKind} where
  -- With no upgrade running, `fwUpgrading.value()` throws; the state stays.
  unfoldable pub fw_upgd_error : IoModule k → IoModule k
  fw_upgd_error s = elim s.fw_upgrading [
    | none ↦ s
    | some request ↦
        effect (module_event request.socket false)
          (record (effect (refused request fwupgd_error) s) {
            fw_upgrading = none;
            data_ = [];
            to_write = [];
          })
  ]

  unfoldable pub fw_upgd_get_status : IoModule k → IoModule k
  fw_upgd_get_status s =
      effect (sent (module_fw_write_flash_status_request s.address) upgrade_status) s

  unfoldable pub fw_upgd_got_info : ModuleInfo → IoModule k → IoModule k
  unfolding fw_upgd_error fw_upgd_get_status in_bootloader
  fw_upgd_got_info info s =
      if not (in_bootloader info)
      then fw_upgd_error (record s { bus_module_info = info })
      else fw_upgd_get_status (record s { bus_module_info = info; to_write = s.data_ })

  unfoldable pub fw_upgd_init : IoModule k → IoModule k
  unfolding fw_upgd_got_info in_bootloader
  fw_upgd_init s = elim s.fw_upgrading [
    | none ↦ s
    | some request ↦
        let told = effect (module_event request.socket false) s in
        if in_bootloader s.bus_module_info
        then fw_upgd_got_info s.bus_module_info told
        else effect (sent (module_fw_upgrade_req s.address) upgrade_requested) told
  ]

  -- The module may answer after 200 ms.
  unfoldable pub fw_upgd_req_ack : IoModule k → IoModule k
  fw_upgd_req_ack s = effect (timer 200 upgrade_info) s

  unfoldable pub fw_upgd_req_waited : IoModule k → IoModule k
  fw_upgd_req_waited s = effect (sent (module_info_request s.address) upgrade_info) s

  unfoldable pub mtb_bus_lost : IoModule k → IoModule k
  mtb_bus_lost s =
      effect (module_event none false)
        (record s { activating = false; active = false; activations_remaining = 0 })

  -- A reboot during a reboot does nothing.
  unfoldable pub reboot : Rebooting → IoModule k → IoModule k
  unfolding mtb_bus_lost
  reboot r s =
      if s.rebooting
      then s
      else effect (sent (module_reboot s.address) rebooted) (
          effect (module_event none true) (
            mtb_bus_lost
              (record s { rebooting = true; reboot_for = r; activated_by_mtb_usb = false })))

  -- `reboot` after the module has confirmed: it is asked after a second, unless it has come by itself.
  unfoldable pub reboot_ack : IoModule k → IoModule k
  reboot_ack s = effect (timer 1000 reboot_info) s

  unfoldable pub reboot_waited : IoModule k → IoModule k
  reboot_waited s =
      if s.activated_by_mtb_usb
      then s
      else effect (sent (module_info_request s.address) reboot_info) s

  -- `rebooting.onError()`.
  unfoldable pub reboot_on_error : Rebooting → IoModule k → IoModule k
  unfolding fw_upgd_error mtb_bus_lost
  reboot_on_error for_upgrade s = fw_upgd_error s
  reboot_on_error (for_request r) s = mtb_bus_lost (effect (refused r bus_no_response) s)

  -- The error callback of either command of a reboot.
  unfoldable pub reboot_error : IoModule k → IoModule k
  unfolding reboot_on_error
  reboot_error s =
      reboot_on_error s.reboot_for
        (effect (module_event none true) (record s { rebooting = false }))

  unfoldable pub fw_upgd_all_written : IoModule k → IoModule k
  unfolding reboot
  fw_upgd_all_written s = reboot for_upgrade s

  unfoldable pub json_reboot : ServerRequest → IoModule k → IoModule k
  unfolding reboot
  json_reboot r s =
      if s.rebooting then effect (refused r module_rebooting) s else reboot (for_request r) s

  -- The address of a block is a uint16_t.
  unfoldable pub fw_upgd_got_status : ℕ → IoModule k → IoModule k
  unfolding fw_upgd_get_status fw_upgd_all_written
  fw_upgd_got_status status s =
      if status == writing_flash then fw_upgd_get_status s else elim s.to_write [
        | [] ↦ fw_upgd_all_written s
        | (block, blob) ∷ rest ↦
            record (effect
              (sent (module_fw_write_flash s.address (block * block_size % 65536) blob)
                upgrade_written)
              s) { to_write = rest }
      ]

  unfoldable pub fw_upgd_rebooted : IoModule k → IoModule k
  unfolding fw_upgd_error in_bootloader
  fw_upgd_rebooted s =
      if in_bootloader s.bus_module_info then fw_upgd_error s else elim s.fw_upgrading [
        | none ↦ s
        | some request ↦
            effect (module_event request.socket true)
              (record (effect (done request) s) { fw_upgrading = none; data_ = []; to_write = [] })
      ]

  -- `rebooting.onOk()`.
  unfoldable pub reboot_on_ok : Rebooting → IoModule k → IoModule k
  unfolding fw_upgd_rebooted
  reboot_on_ok for_upgrade s = fw_upgd_rebooted s
  reboot_on_ok (for_request r) s = effect (done r) s

  unfoldable pub fully_activated : IoModule k → IoModule k
  unfolding reboot_on_ok
  fully_activated s =
      let active_now =
        effect (module_event none true)
          (record s { activating = false; activations_remaining = 0; active = true }) in
      if s.rebooting
      then reboot_on_ok s.reboot_for (record active_now { rebooting = false })
      else active_now
