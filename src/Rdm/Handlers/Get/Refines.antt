-- ===== src/Rdm/Handlers/Get/Refines.antt =====
-- The GET handlers of RDMHandlers.cpp against their specification in Answers.
use rgbmixer.Base.{
  ℕ, zero, suc, ◌+◌, ◌-◌, ◌≤◌, ◌≡◌, refl, true, false, ◌&&◌, ◌||◌, [], none, some, ltb, ◌==◌,
  length, arith, ==→eq, Bool-cases, inl, inr, ◌∙◌, ap, sym, cells-mem_of, mem_of, u16, ◌<<<◌,
}
use rgbmixer.Arduino.{Eeprom}
use rgbmixer.Common.{device_name, manufacturer_name}
use rgbmixer.Settings.{device_label}
use rgbmixer.Settings.Label.{length-device_label}
use rgbmixer.Device.{Device}
use rgbmixer.Rdm.Sender.{Memory, decrement_message_count, end_rdm_response, start_rdm_ack_response}
use rgbmixer.Rdm.Enums.{
  data_out_of_range, ack, get_command_response, set_command_response, pid_device_label,
  pid_status_messages,
}
use rgbmixer.Rdm.Answer.{deliver, respond_ack, respond_empty, send_nack_lem, send_nil-start_ack}
use rgbmixer.Rdm.Handlers.Tables.{
  Board, GetHandler, get_queued_message, get_supported_parameters, get_parameter_description,
  get_device_info, get_product_detail_id, get_device_model_description, get_manufacturer_label,
  get_device_label, get_language, get_software_version, get_personality,
  get_personality_description, get_start_address, get_sensor_definition, get_sensor_value,
  get_device_power_cycles, get_identify_device, pid_definitions, RdmPersonality, rdm_personalities,
  personality_entry, personality_count, supported_language, software_version_string,
}
use rgbmixer.Rdm.Handlers.Get.{
  handle_get_queued_message, handle_get_supported_parameters, handle_get_parameter_description,
  handle_get_device_info, handle_get_product_detail_id, handle_get_device_model_description,
  handle_get_manufacturer_label, handle_get_device_label, handle_get_language,
  handle_get_software_version, handle_get_personality, handle_get_personality_description,
  handle_get_start_address, handle_get_sensor_definition, handle_get_sensor_value,
  handle_get_device_power_cycles, handle_get_identify_device, call_get_handler,
  describe_personality,
}
use rgbmixer.Rdm.Handlers.Parts.{
  count_supported, label_sent, clear_sent_device_label, send_supported,
}
use rgbmixer.Rdm.Handlers.Get.Answers.{get_answer, after_get}
use rgbmixer.Rdm.Handlers.Get.Laws.{
  sending, send_sensor_response_lem, send_supported_lem, send_array-start, string_request_lem,
}

-- The guard of the handler leaves the numbers of the table, and no others.
pub personality_entry_out :
    (number : ℕ)
    → (number == 0 || ltb personality_count number) ≡ true
    → personality_entry number ≡ none
unfolding personality_entry rdm_personalities
personality_entry_out zero h = refl
personality_entry_out (suc zero) h = cc
personality_entry_out (suc (suc zero)) h = cc
personality_entry_out (suc (suc (suc zero))) h = cc
personality_entry_out (suc (suc (suc (suc n)))) h =
    let three : suc (suc (suc (suc n))) - 1 ≡ suc (suc (suc n)) = omega arith in
    ground (arith, three)

pub personality_entry_in :
    (number : ℕ)
    → (number == 0 || ltb personality_count number) ≡ false
    → (p : RdmPersonality) × (personality_entry number ≡ some p) × (length p.description ≤ 24)
unfolding personality_entry rdm_personalities
personality_entry_in zero h = absurd (cc)
personality_entry_in (suc zero) h = (_, refl, omega arith)
personality_entry_in (suc (suc zero)) h = (_, refl, omega arith)
personality_entry_in (suc (suc (suc zero))) h = (_, refl, omega arith)
personality_entry_in (suc (suc (suc (suc n)))) h = absurd (ground arith)

-- The counter stops at 0, as subtraction does.
decrement_message_count_lem :
    {S : Type 0} (d : Device S)
    → decrement_message_count d ≡ record d { m_message_count = d.m_message_count - 1 }
unfolding decrement_message_count
decrement_message_count_lem d = elim (Bool-cases (d.m_message_count == 0)) [
  | inl empty ↦
      let same : d.m_message_count ≡ d.m_message_count - 1 =
        (let zero : d.m_message_count ≡ 0 = ==→eq _ _ empty in omega arith) in
      simp empty (λ i. record d { m_message_count = same i })
  | inr some_left ↦ simp some_left
]

module _ {S : Type 0} ⦃e : Eeprom S⦄ (board : Board) (msg : Memory) (d : Device S) where
  -- The handler delivers the answer, to a device that changed as `after_get` says.
  abbrev Delivers : GetHandler → Type 0
  Delivers h =
      call_get_handler board h msg d ≡ deliver msg (get_answer board h msg d) (after_get h msg d)

  queued_message-Delivers : Delivers get_queued_message
  unfolding call_get_handler get_answer after_get handle_get_queued_message label_sent
      clear_sent_device_label
  queued_message-Delivers = elim (Bool-cases d.m_device_label_pending) [
    | inl pending ↦
        simp (pending, decrement_message_count_lem)
          (respond_empty msg ack set_command_response pid_device_label _)
    | inr none_pending ↦ elim (Bool-cases (d.m_sent_device_label && msg 24 == 1)) [
      | inl again ↦
          simp (none_pending, again) (respond_empty msg ack set_command_response pid_device_label d)
      | inr other ↦
          simp (none_pending, other)
            (respond_empty msg ack get_command_response pid_status_messages _)
    ]
  ]

  supported_parameters-Delivers : Delivers get_supported_parameters
  unfolding call_get_handler get_answer after_get handle_get_supported_parameters pid_definitions
      count_supported
  supported_parameters-Delivers =
      ap (λ x. end_rdm_response (send_supported pid_definitions x))
        (sym (send_nil-start_ack msg 28 d))
      ∙ ap end_rdm_response
          (send_supported_lem pid_definitions [] (start_rdm_ack_response msg 28 d))
      ∙ respond_ack msg 28 _ d refl (omega arith)

  parameter_description-Delivers : Delivers get_parameter_description
  unfolding call_get_handler get_answer after_get handle_get_parameter_description
  parameter_description-Delivers = elim (Bool-cases (u16 (msg 24 <<< 8 + msg 25) == 0x8000)) [
    | inl own ↦ rw own (simp sending (respond_ack msg 37 _ d refl (omega arith)))
    | inr other ↦ rw other (send_nack_lem msg data_out_of_range d)
  ]

  device_info-Delivers : Delivers get_device_info
  unfolding call_get_handler get_answer after_get handle_get_device_info
  device_info-Delivers = simp sending (respond_ack msg 19 _ d refl (omega arith))

  personality_description-Delivers : Delivers get_personality_description
  unfolding call_get_handler get_answer after_get handle_get_personality_description
      describe_personality
  personality_description-Delivers =
      elim (Bool-cases (msg 24 == 0 || ltb personality_count (msg 24))) [
        | inl out ↦
            rw (out, personality_entry_out (msg 24) out) (send_nack_lem msg data_out_of_range d)
        | inr inside ↦
            let (p, found, short) = personality_entry_in (msg 24) inside in
            rw (inside, found)
              (simp (sending, cells-mem_of p.description)
                (respond_ack msg (3 + length p.description) _ d (omega arith) (omega arith)))
      ]

  sensor_definition-Delivers : Delivers get_sensor_definition
  unfolding call_get_handler get_answer after_get handle_get_sensor_definition
  sensor_definition-Delivers = elim (Bool-cases (msg 24 == 0)) [
    | inl first ↦ rw first (simp sending (respond_ack msg 29 _ d refl (omega arith)))
    | inr other ↦ rw other (send_nack_lem msg data_out_of_range d)
  ]

  sensor_value-Delivers : Delivers get_sensor_value
  unfolding call_get_handler get_answer after_get handle_get_sensor_value
  sensor_value-Delivers = elim (Bool-cases (msg 24 == 0)) [
    | inl first ↦ rw first (send_sensor_response_lem board msg d)
    | inr other ↦ rw other (send_nack_lem msg data_out_of_range d)
  ]

  device_label-Delivers : Delivers get_device_label
  unfolding call_get_handler get_answer after_get handle_get_device_label
  device_label-Delivers =
      string_request_lem msg (device_label d.settings 32) d
        (omega (arith, length-device_label d.settings 32 (omega arith)))

  constant-Delivers :
      Delivers get_device_model_description
      × Delivers get_manufacturer_label
      × Delivers get_language
  unfolding call_get_handler get_answer after_get handle_get_device_model_description
      handle_get_manufacturer_label handle_get_language
  constant-Delivers = (
    string_request_lem msg device_name d (omega arith),
    string_request_lem msg manufacturer_name d (omega arith),
    string_request_lem msg supported_language d (omega arith),
  )

  software_version-Delivers : Delivers get_software_version
  unfolding call_get_handler get_answer after_get handle_get_software_version
  software_version-Delivers =
      ap end_rdm_response (send_array-start msg (mem_of software_version_string) 4 d)
      ∙ respond_ack msg 4 _ d refl (omega arith)

  short-Delivers :
      Delivers get_product_detail_id
      × Delivers get_personality
      × Delivers get_start_address
      × Delivers get_device_power_cycles
      × Delivers get_identify_device
  unfolding call_get_handler get_answer after_get handle_get_product_detail_id
      handle_get_personality handle_get_start_address handle_get_device_power_cycles
      handle_get_identify_device
  short-Delivers = (
    simp sending (respond_ack msg 2 _ d refl (omega arith)),
    simp sending (respond_ack msg 2 _ d refl (omega arith)),
    simp sending (respond_ack msg 2 _ d refl (omega arith)),
    simp sending (respond_ack msg 4 _ d refl (omega arith)),
    simp sending (respond_ack msg 1 _ d refl (omega arith)),
  )

-- Every GET handler delivers the answer of its specification, in one frame whose announced sizes
-- and checksum are those of what is sent, and changes the device as the specification says.
pub call_get_handler-deliver :
    {S : Type 0} ⦃e : Eeprom S⦄ (board : Board) (h : GetHandler) (msg : Memory) (d : Device S)
    → call_get_handler board h msg d ≡ deliver msg (get_answer board h msg d) (after_get h msg d)
call_get_handler-deliver board get_queued_message msg d = queued_message-Delivers board msg d
call_get_handler-deliver board get_supported_parameters msg d =
    supported_parameters-Delivers board msg d
call_get_handler-deliver board get_parameter_description msg d =
    parameter_description-Delivers board msg d
call_get_handler-deliver board get_device_info msg d = device_info-Delivers board msg d
call_get_handler-deliver board get_product_detail_id msg d = (short-Delivers board msg d).0
call_get_handler-deliver board get_device_model_description msg d =
    (constant-Delivers board msg d).0
call_get_handler-deliver board get_manufacturer_label msg d = (constant-Delivers board msg d).1
call_get_handler-deliver board get_device_label msg d = device_label-Delivers board msg d
call_get_handler-deliver board get_language msg d = (constant-Delivers board msg d).2
call_get_handler-deliver board get_software_version msg d = software_version-Delivers board msg d
call_get_handler-deliver board get_personality msg d = (short-Delivers board msg d).1
call_get_handler-deliver board get_personality_description msg d =
    personality_description-Delivers board msg d
call_get_handler-deliver board get_start_address msg d = (short-Delivers board msg d).2
call_get_handler-deliver board get_sensor_definition msg d = sensor_definition-Delivers board msg d
call_get_handler-deliver board get_sensor_value msg d = sensor_value-Delivers board msg d
call_get_handler-deliver board get_device_power_cycles msg d = (short-Delivers board msg d).3
call_get_handler-deliver board get_identify_device msg d = (short-Delivers board msg d).4
