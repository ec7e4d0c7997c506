-- ===== src/Mixer/Actions.antt =====
-- The cases of TakeAction of main.cpp.
use rgbmixer.Base.{ℕ, ◌+◌, length, mem_of, ◌==◌, if◌then◌else◌, Bool-cases, inl, inr}
use rgbmixer.Arduino.{Eeprom}
use rgbmixer.Device.{Device, ◌>>◌, skip}
use rgbmixer.UsbPro.Labels.{
  parameters_label, dmx_data_label, serial_number_label, manufacturer_label, name_label, rdm_label,
}
use rgbmixer.UsbPro.Sender.{write_message}
use rgbmixer.Rdm.Sender.{Memory}
use rgbmixer.Rdm.Handlers.Tables.{Board}
use rgbmixer.Rdm.Handlers.Message.{handle_rdm_message}
use rgbmixer.Mixer.{
  device_params, toggle_led, set_pwm, send_serial_number_response, send_device_response,
  send_manufacturer_response, take_action,
}

-- What holds after each of the actions, and when there is none, holds after TakeAction.
pub take_action_cases {ℓ} :
    {S : Type 0} ⦃e : Eeprom S⦄ (board : Board) (label : ℕ) (msg : Memory) (size : ℕ) (d : Device S)
    (P : Device S → Type ℓ)
    → P (write_message parameters_label (length device_params) (mem_of device_params) d)
    → P ((if msg 0 == 0 then (toggle_led >> set_pwm (λ i. msg (1 + i)) size) else skip) d)
    → P (send_serial_number_response d)
    → P (send_device_response d)
    → P (send_manufacturer_response d)
    → P (handle_rdm_message board msg size (toggle_led d))
    → P d
    → P (take_action board label msg size d)
unfolding take_action
take_action_cases board label msg size d P params dmx serial name maker rdm nothing =
    elim (Bool-cases (label == parameters_label)) [
      | inl found ↦ rw found params
      | inr no_params ↦ rw no_params (elim (Bool-cases (label == dmx_data_label)) [
        | inl found ↦ rw found dmx
        | inr no_dmx ↦ rw no_dmx (elim (Bool-cases (label == serial_number_label)) [
          | inl found ↦ rw found serial
          | inr no_serial ↦ rw no_serial (elim (Bool-cases (label == name_label)) [
            | inl found ↦ rw found name
            | inr no_name ↦ rw no_name (elim (Bool-cases (label == manufacturer_label)) [
              | inl found ↦ rw found maker
              | inr no_maker ↦ rw no_maker (elim (Bool-cases (label == rdm_label)) [
                | inl found ↦ rw found rdm
                | inr no_rdm ↦ rw no_rdm nothing
              ])
            ])
          ])
        ])
      ])
    ]
