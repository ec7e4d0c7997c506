-- ===== src/Responder/Asked.antt =====
-- The answers and the changes of the GET handlers against the responder's.
use rgbmixer.Base.{
  ℕ, ◌+◌, ◌-◌, ◌*◌, ◌%◌, ◌≤◌, ◌≡◌, refl, Bool, true, false, ◌&&◌, Option, none, some, ◌==◌,
  if◌then◌else◌, u16, length, mem_of-lt, arith, Bool-cases, inl, inr, ==→eq,
}
use rgbmixer.Arduino.{Eeprom}
use rgbmixer.Settings
use rgbmixer.Settings.{read_long}
use rgbmixer.Settings.Words.{read_long_lem, read_int-lt}
use rgbmixer.Device.{Device}
use rgbmixer.Rdm.Sender.{Memory}
use rgbmixer.Rdm.Enums.{data_out_of_range}
use rgbmixer.Rdm.Handlers.Tables.{
  Board, GetHandler, get_queued_message, get_supported_parameters, get_parameter_description,
  get_device_info, get_product_detail_id, get_device_model_description, get_manufacturer_label,
  get_device_label, get_language, get_software_version, get_personality,
  get_personality_description, get_start_address, get_sensor_definition, get_sensor_value,
  get_device_power_cycles, get_identify_device, personality_entry, RdmPersonality,
}
use rgbmixer.Rdm.Handlers.Get.Answers.{get_answer, after_get, describe, sensor_bytes}
use rgbmixer.Rdm.Handlers.Queue.{waiting, response, next, queue_of}
use rgbmixer.Responder.{Message, byte_of, int_of, asked, asked_after, describes, sensor_report}
use rgbmixer.Responder.View.{view, Holds, acks_lem, nacks_lem}

-- How many bytes of data a handler reads.
abbrev pub needed : GetHandler → ℕ
needed get_queued_message = 1
needed get_parameter_description = 2
needed get_personality_description = 1
needed get_sensor_definition = 1
needed get_sensor_value = 1
needed h = 0

module _ {S : Type 0} ⦃e : Eeprom S⦄ where
  pub sensor_value_lem :
      (d : Device S)
      → Settings.sensor_value d.settings ≡ Settings.device_power_cycles d.settings % 65536
  unfolding Settings.sensor_value Settings.device_power_cycles
  sensor_value_lem d = omega (arith, read_long_lem d.settings 44, read_int-lt d.settings 46)

module _ {S : Type 0} ⦃e : Eeprom S⦄ where
  -- A GET of QUEUED_MESSAGE, by the flags and by what was asked for.
  hand_out_lem :
      (d : Device S) (pending sent again : Bool)
      → let d' = record d { m_device_label_pending = pending; m_sent_device_label = sent } in
        view (
          if pending
          then record d' {
            m_message_count = d'.m_message_count - 1;
            m_device_label_pending = false;
            m_sent_device_label = true;
          }
          else if sent && again
          then d'
          else record d' { m_sent_device_label = false })
        ≡ record (view d') {
          queue = next (queue_of d') again;
          counted = elim (queue_of d') [
            | waiting ↦ d'.m_message_count - 1
            | _ ↦ d'.m_message_count
          ];
        }
  unfolding next
  hand_out_lem d true sent again = refl
  hand_out_lem d false true true = refl
  hand_out_lem d false true false = refl
  hand_out_lem d false false again = refl

module _ {msg : Memory} {m : Message} (h : Holds msg m) where
  first : 1 ≤ length m.request.param_data → msg 24 ≡ byte_of m.request.param_data
  first one = h.bytes 0 (omega arith)

  describe_lem :
      (number : ℕ) (p : Option RdmPersonality)
      → describe msg number p ≡ describes m.request number p
  describe_lem number none = nacks_lem h data_out_of_range
  describe_lem number (some p) = acks_lem h _

  module _ {S : Type 0} ⦃e : Eeprom S⦄ (board : Board) (d : Device S) where
    pub sensor_bytes_lem :
        1 ≤ length m.request.param_data
        → sensor_bytes board msg d ≡ sensor_report board m.request (view d)
    sensor_bytes_lem one = rw (first one, sensor_value_lem d)

    pub get_answer_lem :
        (g : GetHandler)
        → needed g ≤ length m.request.param_data
        → get_answer board g msg d ≡ asked board g m.request (view d)
    unfolding get_answer asked
    get_answer_lem get_queued_message enough = rw (first enough) (unfold response in ground arith)
    get_answer_lem get_supported_parameters enough = acks_lem h _
    get_answer_lem get_parameter_description enough =
        let number : u16 (msg 24 * 256 + msg 25) ≡ int_of m.request.param_data =
          (rw (h.bytes 0 (omega arith), h.bytes 1 (omega arith))
            (omega (
              arith,
              mem_of-lt m.request.param_data 0 h.are_bytes,
              mem_of-lt m.request.param_data 1 h.are_bytes,
            ))) in
        rw (number, acks_lem h, nacks_lem h)
    get_answer_lem get_device_info enough = acks_lem h _
    get_answer_lem get_product_detail_id enough = acks_lem h _
    get_answer_lem get_device_model_description enough = acks_lem h _
    get_answer_lem get_manufacturer_label enough = acks_lem h _
    get_answer_lem get_device_label enough = acks_lem h _
    get_answer_lem get_language enough = acks_lem h _
    get_answer_lem get_software_version enough = acks_lem h _
    get_answer_lem get_personality enough = acks_lem h _
    get_answer_lem get_personality_description enough = rw (first enough) (
        describe_lem (byte_of m.request.param_data)
          (personality_entry (byte_of m.request.param_data)))
    get_answer_lem get_start_address enough = acks_lem h _
    get_answer_lem get_sensor_definition enough =
        rw (first enough, nacks_lem h)
          (elim (Bool-cases (byte_of m.request.param_data == 0)) [
            | inl one ↦ rw one (rw (==→eq _ _ one) (acks_lem h _))
            | inr other ↦ rw other
          ])
    get_answer_lem get_sensor_value enough =
        rw (sensor_bytes_lem enough, first enough, nacks_lem h, acks_lem h)
    get_answer_lem get_device_power_cycles enough = acks_lem h _
    get_answer_lem get_identify_device enough = acks_lem h _

    pub after_get_lem :
        (g : GetHandler)
        → needed g ≤ length m.request.param_data
        → view (after_get g msg d) ≡ asked_after g m.request (view d)
    unfolding after_get asked_after
    after_get_lem get_queued_message enough = rw (first enough) (
        hand_out_lem d d.m_device_label_pending d.m_sent_device_label
          (byte_of m.request.param_data == 1))
    after_get_lem g enough = refl
