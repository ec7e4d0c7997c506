-- ===== src/Rdm/Handlers/Parts.antt =====
-- What the handlers of RDMHandlers.cpp share, and the loops and steps inside them.
use rgbmixer.Base.{
  ℕ, zero, suc, ◌+◌, ◌*◌, ◌/◌, true, false, List, [], ◌∷◌, none, some, if◌then◌else◌, u8, u16,
}
use rgbmixer.Arduino.{Eeprom}
use rgbmixer.Settings.{sensor_value}
use rgbmixer.Device.{Cmd, ◌>>◌, ◌>>=◌, skip, setting}
use rgbmixer.Rdm.Enums.{ack}
use rgbmixer.Rdm.Sender.{
  Memory, send_byte_and_checksum, send_int_and_checksum, start_rdm_response, start_rdm_ack_response,
  end_rdm_response,
}
use rgbmixer.Rdm.Handlers.Tables.{Board, PidDefinition, personality_entry, temp_sensor_pin}

-- 10 * 5.0 * input * 100.0 / 1024.0 in floats, cut to an int: for an input below 1024 every step
-- is exact, and so the result is the quotient of whole numbers.
unfoldable pub read_temperature_sensor : Board → ℕ
read_temperature_sensor board = u16 (5000 * board.analog_read temp_sensor_pin / 1024)

-- The slots of a personality, also where the number is out of the table.
unfoldable pub personality_slots : Board → ℕ → ℕ
personality_slots board number = elim (personality_entry number) [
  | none ↦ board.stray_slots number
  | some p ↦ p.slots
]

-- The first loop over PID_DEFINITIONS in HandleGetSupportedParameters.
unfoldable pub count_supported : List PidDefinition → ℕ → ℕ
count_supported [] n = n
count_supported (p ∷ ps) n =
    count_supported ps (if p.include_in_supported_params then u8 (n + 1) else n)

module _ {S : Type 0} where
  -- The loops that send an array: `left` rounds from round `i`.
  unfoldable pub send_array : (ℕ → ℕ) → ℕ → ℕ → Cmd S
  send_array bytes zero i = skip
  send_array bytes (suc left) i = do send_byte_and_checksum (bytes i); send_array bytes left (i + 1)

  -- The second loop there.
  unfoldable pub send_supported : List PidDefinition → Cmd S
  send_supported [] = skip
  send_supported (p ∷ ps) = do
    if p.include_in_supported_params then send_int_and_checksum p.pid else skip
    send_supported ps

  unfoldable pub label_sent : Cmd S
  label_sent d = record d { m_device_label_pending = false; m_sent_device_label = true }

  unfoldable pub clear_sent_device_label : Cmd S
  clear_sent_device_label d = record d { m_sent_device_label = false }

module _ {S : Type 0} ⦃e : Eeprom S⦄ where
  unfoldable pub send_sensor_response : Board → Memory → Cmd S
  send_sensor_response board received_message = do
    start_rdm_ack_response received_message 9
    send_byte_and_checksum (received_message 24)
    send_int_and_checksum (read_temperature_sensor board)
    send_int_and_checksum 0
    send_int_and_checksum 0
    recorded ← setting sensor_value
    send_int_and_checksum recorded
    end_rdm_response

  unfoldable pub handle_string_request : Memory → (ℕ → ℕ) → ℕ → Cmd S
  handle_string_request received_message label label_size = do
    start_rdm_response received_message ack label_size
    send_array label label_size 0
    end_rdm_response
