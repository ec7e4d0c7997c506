-- ===== src/Rdm/Handlers/Set/Refines.antt =====
-- The SET handlers of RDMHandlers.cpp against their specification in Answers.
use rgbmixer.Base.{
  ℕ, ◌+◌, ◌<◌, ◌≡◌, Bool, true, false, ◌&&◌, [], Option, none, some, ltb, ◌==◌, if◌then◌else◌,
  arith, Bool-cases, inl, inr, int_lt, ==→eq,
}
use rgbmixer.Arduino.{Eeprom}
use rgbmixer.Device.{Device, Cmd}
use rgbmixer.Rdm.Sender.{Memory, increment_message_count}
use rgbmixer.Rdm.Enums.{NackReason, format_error, data_out_of_range, status_broadcast}
use rgbmixer.Rdm.Answer.{
  deliver, acks, unless_broadcast, send_nack_lem, send_ack_timer_lem, send_empty_ack_lem,
  status_lem, nack_or_broadcast_lem,
}
use rgbmixer.Rdm.Handlers.Tables.{
  Board, SetHandler, set_language, set_device_label, set_personality, set_start_address,
  set_sensor_value, record_sensor, set_device_power_cycles, set_identify_device, set_serial,
  supported_language,
}
use rgbmixer.Rdm.Handlers.Get.Laws.{send_sensor_response_lem}
use rgbmixer.Rdm.Handlers.Set.{
  long_from, matches_language, label_pending, set_identify_mode, ack_or_broadcast,
  handle_set_language, handle_set_device_label, handle_set_personality, handle_set_start_address,
  handle_set_sensor_value, handle_record_sensor, handle_set_device_power_cycles,
  handle_set_identify_device, handle_set_serial, call_set_handler,
}
use rgbmixer.Rdm.Handlers.Set.Answers.{
  request_int, request_long, refuse, set_check, refusal, set_before, set_answer, set_after,
  set_outcome,
}

-- The loop reads a big-endian long.
long_from_lem : (msg : Memory) → long_from msg 4 0 0 ≡ request_long msg
unfolding long_from
long_from_lem msg = omega arith

module _ {S : Type 0} ⦃e : Eeprom S⦄ where
  ack_or_broadcast_lem :
      (was_broadcast : Bool) (msg : Memory) (d : Device S)
      → ack_or_broadcast was_broadcast msg d
        ≡ deliver msg (unless_broadcast was_broadcast (acks msg [])) d
  unfolding ack_or_broadcast
  ack_or_broadcast_lem true msg d = status_lem msg status_broadcast d
  ack_or_broadcast_lem false msg d = send_empty_ack_lem msg d

  -- Two guards before a command, against the outcome of the check.
  guarded :
      (outcome : Option NackReason → Device S) (wrong out : Bool) (f r k : Cmd S) (d : Device S)
      → f d ≡ outcome (some format_error)
      → r d ≡ outcome (some data_out_of_range)
      → k d ≡ outcome none
      → (if wrong then f else if out then r else k) d ≡ outcome (refuse wrong out)
  guarded outcome true out f r k d p q s = p
  guarded outcome false true f r k d p q s = q
  guarded outcome false false f r k d p q s = s

  guarded_size :
      (outcome : Option NackReason → Device S) (wrong : Bool) (f k : Cmd S) (d : Device S)
      → f d ≡ outcome (some format_error)
      → k d ≡ outcome none
      → (if wrong then f else k) d ≡ outcome (refuse wrong false)
  guarded_size outcome true f k d p s = p
  guarded_size outcome false f k d p s = s

  -- The counter saturates.
  increment_message_count_lem :
      (d : Device S)
      → increment_message_count d ≡ record d {
        m_message_count = if d.m_message_count == 255 then 255 else d.m_message_count + 1;
      }
  unfolding increment_message_count
  increment_message_count_lem d = elim (Bool-cases (d.m_message_count == 255)) [
    | inl full ↦
        let same : d.m_message_count ≡ 255 = ==→eq _ _ full in
        simp full (λ i. record d { m_message_count = same i })
    | inr room ↦ simp room
  ]

-- A signed comparison with 512 lets the negative addresses pass.
int_lt_512 : (a : ℕ) → a < 65536 → int_lt 512 a ≡ (ltb 512 a && ltb a 0x8000)
int_lt_512 a h = ground arith

matches_language_lem :
    (msg : Memory) → matches_language supported_language msg 0 ≡ (b'e' == msg 24 && b'n' == msg 25)
unfolding matches_language
matches_language_lem msg = ground arith

module _ {S : Type 0} ⦃e : Eeprom S⦄ (board : Board) (was_broadcast : Bool) (sub_device : ℕ)
    (msg : Memory) (d : Device S) where
  abbrev Refines : SetHandler → Type 0
  Refines h =
      call_set_handler board h was_broadcast sub_device msg d
      ≡ set_outcome board h was_broadcast msg (set_check h msg) d

  outcome : SetHandler → Option NackReason → Device S
  outcome h c = set_outcome board h was_broadcast msg c d

  language-Refines : Refines set_language
  unfolding call_set_handler set_check set_outcome handle_set_language refusal set_before set_answer
      set_after outcome
  language-Refines = rw (matches_language_lem msg) (
      guarded (outcome set_language) _ _ _ _ _ d
        (nack_or_broadcast_lem was_broadcast msg format_error d)
        (nack_or_broadcast_lem was_broadcast msg data_out_of_range d)
        (ack_or_broadcast_lem was_broadcast msg d))

  personality-Refines : Refines set_personality
  unfolding call_set_handler set_check set_outcome handle_set_personality refusal set_before
      set_answer set_after outcome
  personality-Refines =
      guarded (outcome set_personality) _ _ _ _ _ d
        (nack_or_broadcast_lem was_broadcast msg format_error d)
        (nack_or_broadcast_lem was_broadcast msg data_out_of_range d)
        (ack_or_broadcast_lem was_broadcast msg _)

  start_address-Refines : Refines set_start_address
  unfolding call_set_handler set_check set_outcome handle_set_start_address refusal set_before
      set_answer set_after outcome
  start_address-Refines = rw (int_lt_512 (request_int msg) (omega arith)) (
      guarded (outcome set_start_address) _ _ _ _ _ d
        (nack_or_broadcast_lem was_broadcast msg format_error d)
        (nack_or_broadcast_lem was_broadcast msg data_out_of_range d)
        (ack_or_broadcast_lem was_broadcast msg _))

  sensor_value-Refines : Refines set_sensor_value
  unfolding call_set_handler set_check set_outcome handle_set_sensor_value refusal set_before
      set_answer set_after outcome
  sensor_value-Refines =
      guarded (outcome set_sensor_value) _ _ _ _ _ d
        (nack_or_broadcast_lem was_broadcast msg format_error d)
        (send_nack_lem msg data_out_of_range d) (send_sensor_response_lem board msg _)

  record_sensor-Refines : Refines record_sensor
  unfolding call_set_handler set_check set_outcome handle_record_sensor refusal set_before
      set_answer set_after outcome
  record_sensor-Refines =
      guarded (outcome record_sensor) _ _ _ _ _ d
        (nack_or_broadcast_lem was_broadcast msg format_error d)
        (nack_or_broadcast_lem was_broadcast msg data_out_of_range d)
        (ack_or_broadcast_lem was_broadcast msg _)

  power_cycles-Refines : Refines set_device_power_cycles
  unfolding call_set_handler set_check set_outcome handle_set_device_power_cycles refusal set_before
      set_answer set_after outcome
  power_cycles-Refines = rw (long_from_lem msg) (
      guarded_size (outcome set_device_power_cycles) _ _ _ d
        (nack_or_broadcast_lem was_broadcast msg format_error d)
        (ack_or_broadcast_lem was_broadcast msg _))

  identify_device-Refines : Refines set_identify_device
  unfolding call_set_handler set_check set_outcome handle_set_identify_device set_identify_mode
      refusal set_before set_answer set_after outcome
  identify_device-Refines =
      guarded (outcome set_identify_device) _ _ _ _ _ d
        (nack_or_broadcast_lem was_broadcast msg format_error d)
        (nack_or_broadcast_lem was_broadcast msg data_out_of_range d)
        (ack_or_broadcast_lem was_broadcast msg _)

  serial-Refines : Refines set_serial
  unfolding call_set_handler set_check set_outcome handle_set_serial refusal set_before set_answer
      set_after outcome
  serial-Refines = rw (long_from_lem msg) (
      guarded (outcome set_serial) _ _ _ _ _ d
        (nack_or_broadcast_lem was_broadcast msg format_error d)
        (nack_or_broadcast_lem was_broadcast msg data_out_of_range d)
        (ack_or_broadcast_lem was_broadcast msg _))

device_label-Refines :
    {S : Type 0} ⦃e : Eeprom S⦄ (board : Board) (was_broadcast : Bool) (sub_device : ℕ)
    (msg : Memory) (d : Device S)
    → Refines board was_broadcast sub_device msg d set_device_label
unfolding call_set_handler set_check set_outcome handle_set_device_label label_pending refusal
    set_before set_answer set_after outcome
device_label-Refines board true sub_device msg d =
    guarded_size (outcome board true sub_device msg d set_device_label) _ _ _ d
      (nack_or_broadcast_lem true msg format_error d) (status_lem msg status_broadcast _)
device_label-Refines board false sub_device msg d =
    guarded_size (outcome board false sub_device msg d set_device_label) _ _ _ d
      (nack_or_broadcast_lem false msg format_error d)
      (simp (send_ack_timer_lem, increment_message_count_lem))

-- Every SET handler does what its specification says: a request that fails the check is refused
-- and changes nothing but the output; any other changes the setting that it names and is answered,
-- a broadcast by a status except for SENSOR_VALUE. The check lets start addresses from 0x8000 on
-- through.
pub call_set_handler-outcome :
    {S : Type 0} ⦃e : Eeprom S⦄ (board : Board) (h : SetHandler) (was_broadcast : Bool)
    (sub_device : ℕ) (msg : Memory) (d : Device S)
    → call_set_handler board h was_broadcast sub_device msg d
      ≡ set_outcome board h was_broadcast msg (set_check h msg) d
call_set_handler-outcome board set_language b n msg d = language-Refines board b n msg d
call_set_handler-outcome board set_device_label b n msg d = device_label-Refines board b n msg d
call_set_handler-outcome board set_personality b n msg d = personality-Refines board b n msg d
call_set_handler-outcome board set_start_address b n msg d = start_address-Refines board b n msg d
call_set_handler-outcome board set_sensor_value b n msg d = sensor_value-Refines board b n msg d
call_set_handler-outcome board record_sensor b n msg d = record_sensor-Refines board b n msg d
call_set_handler-outcome board set_device_power_cycles b n msg d =
    power_cycles-Refines board b n msg d
call_set_handler-outcome board set_identify_device b n msg d =
    identify_device-Refines board b n msg d
call_set_handler-outcome board set_serial b n msg d = serial-Refines board b n msg d
