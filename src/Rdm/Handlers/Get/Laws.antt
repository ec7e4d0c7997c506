-- ===== src/Rdm/Handlers/Get/Laws.antt =====
-- Lemmas on the parts that the GET handlers of RDMHandlers.cpp share.
use rgbmixer.Base.{
  ℕ, zero, suc, ◌+◌, ◌≤◌, ◌≡◌, refl, List, [], ◌∷◌, ◌++◌, append_assoc, append-nil, mem_of, length,
  cells, cells-mem_of, arith, ◌∙◌, sym, ap, Bool-cases, inl, inr,
}
use rgbmixer.Arduino.{Eeprom}
use rgbmixer.Device.{Device}
use rgbmixer.Rdm.Packet.{int_bytes}
use rgbmixer.Rdm.Sender.{Memory, start_rdm_ack_response, end_rdm_response}
use rgbmixer.Rdm.Reply.{
  send, send-send, send-settings, send_byte_lem, send_int_lem, send_long_lem, send_nil-start,
}
use rgbmixer.Rdm.Answer.{
  Answer, acks, nacks, deliver, respond_ack, send_nack_lem, start_ack-settings, start_ack-identify,
  send_nil-start_ack,
}
use rgbmixer.Rdm.Handlers.Tables.{Board, PidDefinition}
use rgbmixer.Rdm.Handlers.Parts.{
  send_array, send_supported, handle_string_request, send_sensor_response,
}
use rgbmixer.Rdm.Handlers.Get.Answers.{supported_bytes, sensor_bytes}

module _ {S : Type 0} where
  pub send_array_lem :
      (bytes : ℕ → ℕ) (left i : ℕ) (xs : List ℕ) (d : Device S)
      → send_array bytes left i (send xs d) ≡ send (xs ++ cells bytes i left) d
  unfolding send_array
  send_array_lem bytes zero i xs d = rw append-nil
  send_array_lem bytes (suc left) i xs d =
      simp (send_byte_lem, send-send)
        (send_array_lem bytes left (i + 1) (xs ++ bytes i ∷ []) d
          ∙ ap (λ ys. send ys d) (append_assoc xs (bytes i ∷ []) (cells bytes (i + 1) left)))

  pub send_supported_lem :
      (ps : List PidDefinition) (xs : List ℕ) (d : Device S)
      → send_supported ps (send xs d) ≡ send (xs ++ supported_bytes ps) d
  unfolding send_supported
  send_supported_lem [] xs d = rw append-nil
  send_supported_lem (p ∷ ps) xs d = elim (Bool-cases p.include_in_supported_params) [
    | inl listed ↦ rw listed (
        simp (send_int_lem, send-send)
          (send_supported_lem ps (xs ++ int_bytes p.pid) d
            ∙ ap (λ ys. send ys d) (append_assoc xs (int_bytes p.pid) (supported_bytes ps))))
    | inr other ↦ rw other (send_supported_lem ps xs d)
  ]

module _ {S : Type 0} ⦃e : Eeprom S⦄ where
  pub ruleset sending = (
    send_byte_lem, send_int_lem, send_long_lem, send-send, send-settings, send_array_lem,
    start_ack-settings, start_ack-identify,
  )

  pub send_sensor_response_lem :
      (board : Board) (msg : Memory) (d : Device S)
      → send_sensor_response board msg d ≡ deliver msg (acks msg (sensor_bytes board msg d)) d
  unfolding send_sensor_response
  send_sensor_response_lem board msg d = simp sending (respond_ack msg 9 _ d refl (omega arith))

  pub send_array-start :
      (msg : Memory) (bytes : ℕ → ℕ) (size : ℕ) (d : Device S)
      → send_array bytes size 0 (start_rdm_ack_response msg size d)
        ≡ send (cells bytes 0 size) (start_rdm_ack_response msg size d)
  send_array-start msg bytes size d =
      ap (send_array bytes size 0) (sym (send_nil-start_ack msg size d))
      ∙ send_array_lem bytes size 0 [] (start_rdm_ack_response msg size d)

  pub string_request_lem :
      (msg : Memory) (label : List ℕ) (d : Device S)
      → length label ≤ 231
      → handle_string_request msg (mem_of label) (length label) d ≡ deliver msg (acks msg label) d
  unfolding handle_string_request start_rdm_ack_response
  string_request_lem msg label d fits =
      ap end_rdm_response (send_array-start msg (mem_of label) (length label) d)
      ∙ rw (cells-mem_of label) (respond_ack msg (length label) label d refl fits)
