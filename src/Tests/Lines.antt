-- ===== src/Tests/Lines.antt =====
-- Runs of WidgetSettings.cpp, UsbProReceiver.cpp and main.cpp on concrete stores and bytes.
use rgbmixer.Base.{
  codes, ℕ, length-cells, ◌+◌, ◌*◌, ◌/◌, ◌%◌, ◌≡◌, refl, true, List, [], ◌∷◌, ◌++◌, none, some,
  cells, mem_of, take, arith, All, map,
}
use rgbmixer.Arduino.{digital_write}
use rgbmixer.Settings.{
  perform_write, device_label, Settings, esta_id, read_int, magic_number, magic_number_offset,
  start_address, personality, device_power_cycles, save_sensor_value, init, serial_number,
  sensor_value,
}
use rgbmixer.Settings.Start.{device_power_cycles-save_sensor_value}
use rgbmixer.Settings.Defaults.{init_blank}
use rgbmixer.Device.{Device}
use rgbmixer.UsbPro.Frame.{Frame, frame_bytes, stream}
use rgbmixer.UsbPro.Receiver
use rgbmixer.UsbPro.Receiver.Frames.{read-overrun}
use rgbmixer.Rdm.Handlers.Tables.{Board}
use rgbmixer.UsbPro.Labels.{dmx_data_label}
use rgbmixer.Mixer.{take_action, main, led_pin}
use rgbmixer.Mixer.Output.{take_action-dmx, pin_values, outputs}
use rgbmixer.Mixer.Stream.{IsShort, main-serial}
use rgbmixer.Mixer.Ranges.{main-InRange}
use rgbmixer.UsbPro.Receiver.Streams.{Receivable, serve, read-stream}
use rgbmixer.Rdm.Handlers.Message.Ranges.{InRange}
use rgbmixer.Tests.{
  store_eeprom, settings_on, settings, device, board, idle_receiver, counting, store_read,
}

abbrev pub three_bytes : Frame
three_bytes = record { label = 6; payload = 0 ∷ 10 ∷ 20 ∷ [] }

abbrev too_long : Frame
too_long = record { label = 6; payload = cells (λ i. 0) 0 601 }

read-overrun_example :
    Receiver.read counting
      (λ seen. seen)
      (map (Receiver.byte tt) (frame_bytes too_long))
      idle_receiver
      []
    ≡ none
unfolding idle_receiver
read-overrun_example =
    read-overrun counting (λ seen. seen) tt too_long idle_receiver []
      (omega (arith, length-cells (λ i. 0) 0 601)) (omega (arith, length-cells (λ i. 0) 0 601)) refl

abbrev dmx_data : ℕ → ℕ
dmx_data = mem_of (0 ∷ 10 ∷ 20 ∷ 30 ∷ 40 ∷ 50 ∷ 60 ∷ [])

take_action-dmx_example : take_action board dmx_data_label dmx_data 7 device ≡ record device {
  led_state = true;
  pins =
      (digital_write led_pin 1 ∷ []) ++ take 7 (pin_values (λ i. dmx_data (1 + i)) 0 (outputs 2));
}
unfolding start_address personality
take_action-dmx_example = take_action-dmx board dmx_data 7 device refl (omega arith) (omega arith)

abbrev pub blank : Settings (ℕ → ℕ)
blank = settings_on (λ a. 255)

init_blank_example :
    let s' = init blank in
    let (done, later) = perform_write s' in
    (read_int s' magic_number_offset ≡ magic_number)
    × (start_address s' ≡ 1)
    × (personality s' ≡ 1)
    × (esta_id s' ≡ 0x7a70)
    × (serial_number s' ≡ 1)
    × (device_power_cycles s' ≡ 1)
    × (sensor_value s' ≡ 1)
    × (done ≡ true)
    × (device_label later 32 ≡ codes "Default Label")
unfolding read_int store_read
init_blank_example = init_blank blank (omega arith)

device_power_cycles-save_sensor_value_example :
    device_power_cycles (save_sensor_value settings 249)
    ≡ device_power_cycles settings / 65536 * 65536 + 249 % 65536
device_power_cycles-save_sensor_value_example = device_power_cycles-save_sensor_value settings 249

abbrev pub asks_serial : List (Receiver.Event Board)
asks_serial = Receiver.idle ∷ map (Receiver.byte board) (0x7e ∷ 10 ∷ 0 ∷ 0 ∷ 0xe7 ∷ [])

abbrev pub final : Receiver.Receiver × Device (ℕ → ℕ)
unfolding main
final = elim (main settings (λ i. 0) asks_serial) [
  | none ↦ (idle_receiver, device)
  | some end ↦ end
]

main-serial_example : (fs : List Frame) × (All IsShort fs) × (final.1.serial ≡ stream fs)
unfolding main Receiver.read Receiver.receive Receiver.start
main-serial_example = main-serial settings (λ i. 0) asks_serial final.0 final.1 refl

-- Two frames that ask for the serial number and the name.
abbrev pub questions : List Frame
questions = record { label = 10; payload = [] } ∷ record { label = 78; payload = [] } ∷ []

pub questions-Receivable : All Receivable questions
questions-Receivable = omega arith

read-stream_example :
    (r' : Receiver.Receiver) × (Receiver.read counting
        (λ seen. seen)
        (map (Receiver.byte tt) (stream questions))
        idle_receiver
        []
      ≡ some (r', serve counting tt questions idle_receiver.message []))
    × (r'.recv_mode ≡ Receiver.pre_som)
unfolding idle_receiver
read-stream_example =
    read-stream counting (λ seen. seen) tt questions idle_receiver [] questions-Receivable refl

abbrev pub first_run : Receiver.Receiver × Device (ℕ → ℕ)
unfolding main
first_run = elim (main blank (λ i. 0) asks_serial) [
  | none ↦ (idle_receiver, device)
  | some end ↦ end
]

main-InRange_example : InRange first_run.1.settings
unfolding main Receiver.read Receiver.receive Receiver.start read_int store_read
main-InRange_example =
    main-InRange blank (λ i. 0) asks_serial first_run.0 first_run.1 (omega arith) refl
