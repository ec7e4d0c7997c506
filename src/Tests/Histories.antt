-- ===== src/Tests/Histories.antt =====
-- Histories of the device of main.cpp and of the receiver of UsbProReceiver.cpp.
use rgbmixer.Base.{
  ℕ, ◌+◌, ◌%◌, ◌≡◌, refl, false, List, [], ◌∷◌, ◌++◌, none, some, mem_of, arith, codes, map,
}
use rgbmixer.Settings.{
  start_address, personality, device_power_cycles, esta_id, serial_number, init, read_int,
}
use rgbmixer.Settings.Coherent.{IsCoherent}
use rgbmixer.UsbPro.Frame.{Frame, stream}
use rgbmixer.UsbPro.Labels.{dmx_data_label}
use rgbmixer.UsbPro.Receiver
use rgbmixer.UsbPro.Receiver.Frames.{received}
use rgbmixer.UsbPro.Receiver.Streams.{serve}
use rgbmixer.UsbPro.Receiver.Noise.{spoilt_bytes, read-noise_stream, read-spoilt_bytes}
use rgbmixer.UsbPro.Receiver.Reach.{Follows, read-Follows}
use rgbmixer.Rdm.Handlers.Tables.{get_queued_message, set_device_label, set_start_address}
use rgbmixer.Rdm.Handlers.Get.{call_get_handler}
use rgbmixer.Rdm.Handlers.Set.{call_set_handler}
use rgbmixer.Rdm.Handlers.Set.Answers.{set_check}
use rgbmixer.Rdm.Handlers.Queue.{waiting, queue_of}
use rgbmixer.Rdm.Packet.{packet_bytes, packet_body}
use rgbmixer.Mixer.{main, take_action, idle, toggle_led, power_on}
use rgbmixer.Mixer.Restart.{main-IsCoherent, main-restart}
use rgbmixer.Mixer.Loopback.{main-loopback}
use rgbmixer.Mixer.Pins.{ShowsFlags}
use rgbmixer.Mixer.Pins.Run.{main-ShowsFlags}
use rgbmixer.Mixer.Queue.{set_device_label-uncounted}
use rgbmixer.Mixer.Dark.{set_start_address-dark}
use rgbmixer.Settings.Fields.{Field, get_field, set_field, get_field-set_field}
use rgbmixer.Tests.{
  store_eeprom, settings_on, settings, device, device_uid, request, board, idle_receiver, counting,
  store_read,
}
use rgbmixer.Tests.Lines.{
  three_bytes, blank, asks_serial, final, first_run, questions, questions-Receivable,
}

read-noise_stream_example :
    (r' : Receiver.Receiver) × (Receiver.read counting
        (λ seen. seen)
        (map (Receiver.byte tt) ((1 ∷ 0xe7 ∷ []) ++ stream questions))
        idle_receiver
        []
      ≡ some (r', serve counting tt questions idle_receiver.message []))
    × (r'.recv_mode ≡ Receiver.pre_som)
unfolding idle_receiver
read-noise_stream_example =
    read-noise_stream counting (λ seen. seen) tt (1 ∷ 0xe7 ∷ []) questions idle_receiver []
      (omega arith) questions-Receivable refl

read-spoilt_bytes_example :
    (r' : Receiver.Receiver) × (Receiver.read counting
        (λ seen. seen)
        (map (Receiver.byte tt) (spoilt_bytes three_bytes 0 ++ stream questions))
        idle_receiver
        []
      ≡ some (r', serve counting tt questions (received three_bytes idle_receiver.message) []))
    × (r'.recv_mode ≡ Receiver.pre_som)
unfolding idle_receiver
read-spoilt_bytes_example =
    read-spoilt_bytes counting (λ seen. seen) tt three_bytes 0 questions idle_receiver []
      (omega arith) (omega arith) questions-Receivable refl

-- A message that announces two bytes, and its first byte.
abbrev half_read : Receiver.Receiver × List ℕ
half_read =
    elim (Receiver.read counting (λ seen. seen) (map (Receiver.byte tt) (0x7e ∷ 6 ∷ 2 ∷ 0 ∷ 5 ∷ []))
      idle_receiver []) [ none ↦ (idle_receiver, []) | some end ↦ end ]

read-Follows_example : Follows half_read.0 (Receiver.receive half_read.0 7)
unfolding Receiver.read Receiver.receive Receiver.start
read-Follows_example =
    read-Follows counting (λ seen. seen) (λ i. 0)
      (map (Receiver.byte tt) (0x7e ∷ 6 ∷ 2 ∷ 0 ∷ 5 ∷ [])) [] half_read.0 half_read.1 refl 7

main-IsCoherent_example : IsCoherent first_run.1.settings
unfolding main Receiver.read Receiver.receive Receiver.start read_int store_read
main-IsCoherent_example = main-IsCoherent blank (λ i. 0) asks_serial first_run.0 first_run.1 refl

main-restart_example :
    let again = init (power_on (settings_on first_run.1.settings.eeprom)).settings in
    (start_address again ≡ start_address first_run.1.settings)
    × (personality again ≡ personality first_run.1.settings)
    × (esta_id again ≡ esta_id first_run.1.settings)
    × (serial_number again ≡ serial_number first_run.1.settings)
    × (device_power_cycles again ≡ (device_power_cycles first_run.1.settings + 1) % 4294967296)
unfolding main Receiver.read Receiver.receive Receiver.start read_int store_read
main-restart_example =
    main-restart blank (λ i. 0) asks_serial first_run.0 first_run.1
      (settings_on first_run.1.settings.eeprom) refl refl

main-loopback_example :
    (out : List Frame) × (r1 : Receiver.Receiver) × (final.1.serial ≡ stream out)
    × (Receiver.read counting
          (λ seen. seen)
          (map (Receiver.byte tt) final.1.serial)
          idle_receiver
          []
        ≡ some (r1, serve counting tt out idle_receiver.message []))
    × (r1.recv_mode ≡ Receiver.pre_som)
unfolding main Receiver.read Receiver.receive Receiver.start
main-loopback_example =
    main-loopback settings (λ i. 0) asks_serial final.0 final.1 counting (λ seen. seen) tt
      idle_receiver [] refl refl

main-ShowsFlags_example : ShowsFlags first_run.1
unfolding main Receiver.read Receiver.receive Receiver.start read_int store_read
main-ShowsFlags_example =
    main-ShowsFlags blank (λ i. 0) asks_serial first_run.0 first_run.1 (omega arith) (omega arith)
      refl

-- A label is set, and its message is asked for before it is written.
abbrev set_label : List ℕ
set_label = request device_uid 0x30 0x82 (codes "desk")

abbrev ask_queue : List ℕ
ask_queue = request device_uid 0x20 0x20 (1 ∷ [])

set_device_label-uncounted_example :
    let set = call_set_handler board set_device_label false 0 (mem_of set_label) device in
    let asked = call_get_handler board get_queued_message (mem_of ask_queue) set in
    (queue_of (idle asked) ≡ waiting) × ((idle asked).m_message_count ≡ 0)
unfolding set_check packet_bytes packet_body
set_device_label-uncounted_example =
    set_device_label-uncounted board 0 (mem_of set_label) (mem_of ask_queue) device refl
      (omega arith)

-- SET DMX_START_ADDRESS to 0x8000, and some data for the outputs.
abbrev set_far : List ℕ
set_far = request device_uid 0x30 0xf0 (0x80 ∷ 0 ∷ [])

set_start_address-dark_example :
    let set = call_set_handler board set_start_address false 0 (mem_of set_far) device in
    (start_address set.settings ≡ 0x8000)
    × (take_action board dmx_data_label (mem_of (0 ∷ 10 ∷ 20 ∷ [])) 3 set ≡ toggle_led set)
unfolding set_check packet_bytes packet_body
set_start_address-dark_example =
    set_start_address-dark board false 0 (mem_of set_far) (mem_of (0 ∷ 10 ∷ 20 ∷ [])) 3 device refl
      (omega arith) refl (omega arith)

get_field-set_field_example :
    get_field Field.serial (set_field Field.cycles 77 settings) ≡ serial_number settings
get_field-set_field_example =
    get_field-set_field Field.serial Field.cycles 77 settings (omega arith) refl
