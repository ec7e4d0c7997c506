-- ===== src/Tests/Requests.antt =====
-- Requests to RDMHandlers.cpp, some of them faulty, and the queue of its messages.
use rgbmixer.Base.{
  ◌==◌, ◌%◌, inr, ℕ, ◌%◌, ◌≡◌, refl, inl, inr, true, false, List, [], ◌∷◌, ◌++◌, mem_of, arith, map,
  some, sum,
}
use rgbmixer.Settings
use rgbmixer.Settings.{esta_id, serial_number, read_long, read_int, matches_serial_number}
use rgbmixer.UsbPro.Frame.{frame_bytes}
use rgbmixer.Rdm.Packet.{Packet, packet_bytes, packet_body}
use rgbmixer.Rdm.Reply.{packet_frame}
use rgbmixer.Rdm.Answer.{acks, deliver}
use rgbmixer.Rdm.Handlers.Tables.{
  get_supported_parameters, get_personality, set_personality, pid_definitions,
}
use rgbmixer.Rdm.Handlers.Get.{call_get_handler}
use rgbmixer.Rdm.Handlers.Set.{call_set_handler}
use rgbmixer.Rdm.Handlers.Set.Answers.{set_check}
use rgbmixer.Rdm.Handlers.ReadBack.{personality, call_set_handler-call_get_handler}
use rgbmixer.Rdm.Handlers.Message.{
  handle_rdm_message, is_malformed, verify_checksum, is_broadcast, is_to_us, param_id, sub_device,
}
use rgbmixer.Rdm.Handlers.Message.Rejected.{rejection}
use rgbmixer.Rdm.Handlers.Message.Corrupt.{corrupt, verify_checksum-corrupt}
use rgbmixer.Rdm.Handlers.Message.Decide.{perform}
use rgbmixer.Rdm.Handlers.Message.Addressed.{destination_serial}
use rgbmixer.Rdm.Handlers.Message.Judged.{carry, decide_by, handle_rdm_message-decide_by}
use rgbmixer.Rdm.Handlers.Message.Faults.{
  handle_rdm_message-sensor_broadcast, handle_rdm_message-no_data,
}
use rgbmixer.Rdm.Handlers.Message.Lookup.{
  supported, pids_bytes, all_served, get_supported_parameters-served,
}
use rgbmixer.Rdm.Handlers.Message.Requests.{Request, decide_request, request_of}
use rgbmixer.Rdm.Sender.{Memory}
use rgbmixer.UsbPro.Receiver
use rgbmixer.Mixer.{take_action, idle, toggle_led}
use rgbmixer.Mixer.Serve.{request_frame, read-request_frame}
use rgbmixer.Tests.{
  idle_receiver, store_eeprom, device, board, device_uid, everyone, request, get_info, set_mode,
  store_read,
}

call_set_handler-call_get_handler_example :
    let d' = call_set_handler board set_personality false 0 (λ i. mem_of set_mode i % 256) device in
    call_get_handler board get_personality (mem_of get_info) d'
    ≡ deliver (mem_of get_info) (acks (mem_of get_info) (3 ∷ 3 ∷ [])) d'
unfolding set_check packet_bytes packet_body sum
call_set_handler-call_get_handler_example =
    call_set_handler-call_get_handler board set_personality get_personality (λ msg. msg 24 ∷ 3 ∷ [])
      false 0 (λ i. mem_of set_mode i % 256) (mem_of get_info) device personality (λ i. omega arith)
      refl

verify_checksum-corrupt_example : verify_checksum (corrupt (mem_of get_info) 20 0x30) 26 ≡ false
unfolding verify_checksum packet_bytes packet_body sum
verify_checksum-corrupt_example =
    verify_checksum-corrupt (mem_of get_info) 26 20 0x30 refl (omega arith) (omega arith)
      (omega arith) (omega arith) (omega arith) refl

abbrev mode_bytes : ℕ → ℕ
mode_bytes i = mem_of set_mode i % 256

handle_rdm_message-decide_by_example :
    handle_rdm_message board mode_bytes 27 device
    ≡ carry board mode_bytes
        (destination_serial mode_bytes == 0xffffffff)
        (decide_by mode_bytes)
        device
unfolding packet_bytes packet_body sum store_read esta_id serial_number read_int read_long
handle_rdm_message-decide_by_example =
    handle_rdm_message-decide_by board mode_bytes 27 device (λ i. omega arith) (omega arith) refl
      (inr refl)

-- A broadcast SET of SENSOR_VALUE.
abbrev set_sensors : List ℕ
set_sensors = request everyone 0x30 0x201 (0 ∷ [])

handle_rdm_message-sensor_broadcast_example :
    (p : Packet) × ((handle_rdm_message board (mem_of set_sensors) 27 device).serial
      ≡ device.serial ++ frame_bytes (packet_frame p))
unfolding rejection is_malformed verify_checksum is_to_us is_broadcast sub_device param_id
    packet_bytes packet_body sum store_read esta_id read_int matches_serial_number
handle_rdm_message-sensor_broadcast_example =
    handle_rdm_message-sensor_broadcast board (mem_of set_sensors) 27 device refl refl (inl refl)
      refl refl refl

-- SET DMX_PERSONALITY with a data length of 1 and no data; the sum of the bytes is 0x323.
abbrev set_nothing : List ℕ
set_nothing =
    0xcc ∷ 1 ∷ 24 ∷ device_uid
    ++ 0x11 ∷ 0x22 ∷ 0 ∷ 0 ∷ 0 ∷ 9 ∷ 5 ∷ 1 ∷ 0 ∷ 0 ∷ 0 ∷ 0x30 ∷ 0 ∷ 0xe0 ∷ 1 ∷ 3 ∷ 0x23 ∷ []

handle_rdm_message-no_data_example :
    Settings.personality (handle_rdm_message board (mem_of set_nothing) 26 device).settings ≡ 3
unfolding rejection is_malformed verify_checksum is_to_us is_broadcast sub_device param_id sum
    store_read esta_id read_int matches_serial_number
handle_rdm_message-no_data_example =
    handle_rdm_message-no_data board (mem_of set_nothing) device refl (inl refl) refl refl refl
      (omega arith) (omega arith) (omega arith)

get_supported_parameters-served_example :
    (call_get_handler board get_supported_parameters (mem_of get_info) device
      ≡ deliver
          (mem_of get_info)
          (acks (mem_of get_info) (pids_bytes (supported pid_definitions)))
          device)
    × (all_served (supported pid_definitions) ≡ true)
get_supported_parameters-served_example =
    get_supported_parameters-served board (mem_of get_info) device

-- A SET of the personality, before it is a packet.
abbrev mode_request : Request
mode_request = record {
  esta = 0x7a70;
  serial = 1;
  command_class = 0x30;
  sub_number = 0;
  pid = 0xe0;
  param_data = 3 ∷ [];
}

read-request_frame_example :
    (msg : Memory) × (r' : Receiver.Receiver) × (Receiver.read take_action idle
        (map (Receiver.byte board) (frame_bytes (request_frame 0x1122 9 5 mode_request)))
        idle_receiver
        device
      ≡ some (r', perform board msg (decide_request mode_request) (toggle_led device)))
    × (request_of msg ≡ mode_request)
    × (r'.recv_mode ≡ Receiver.pre_som)
unfolding store_read esta_id serial_number read_int read_long idle_receiver
read-request_frame_example =
    read-request_frame board 0x1122 9 5 mode_request idle_receiver device
      (record {
        esta_fits = omega arith;
        serial_fits = omega arith;
        class_known = inr refl;
        sub_fits = omega arith;
        pid_fits = omega arith;
        data_fits = omega arith;
      })
      refl refl
