-- ===== src/Responder/Changed.antt =====
-- The checks, the changes and the answers of the SET handlers against the responder's.
use rgbmixer.Base.{
  ℕ, ◌+◌, ◌*◌, ◌/◌, ◌≤◌, ◌<◌, ◌≡◌, ◌∙◌, refl, Bool, false, not, ◌&&◌, List, none, ◌==◌, length,
  mem_of, mem_of-lt, arith, Bool-cases, inl, inr, ==→eq,
}
use rgbmixer.Arduino.{Eeprom}
use rgbmixer.Settings
use rgbmixer.Settings.{Settings}
use rgbmixer.Settings.Fields.{address, serial, cycles, sensor, mode}
use rgbmixer.Device.{Device}
use rgbmixer.Rdm.Enums.{NackReason, data_out_of_range}
use rgbmixer.Rdm.Sender.{Memory}
use rgbmixer.Rdm.Answer.{unless_broadcast, nacks}
use rgbmixer.Rdm.Handlers.Tables.{
  Board, SetHandler, set_language, set_device_label, set_personality, set_start_address,
  set_sensor_value, record_sensor, set_device_power_cycles, set_identify_device, set_serial,
}
use rgbmixer.Rdm.Handlers.Parts.{read_temperature_sensor}
use rgbmixer.Rdm.Handlers.Set.Answers.{
  refuse, no_sensor, request_int, request_long, set_check, set_before, set_answer, set_after,
  refusal,
}
use rgbmixer.Responder.{
  Message, byte_of, int_of, long_of, check, change, confirm, deny, denies, remember, is_to_all,
}
use rgbmixer.Responder.View.{view, IsSound, Holds, answer_lem, acks_lem, nacks_lem}
use rgbmixer.Responder.Asked.{sensor_bytes_lem}
use rgbmixer.Responder.Stored.{
  view-set_personality, view-set_start_address, view-set_serial_number,
  view-set_device_power_cycles, view-save_sensor_value, view-set_device_label, IsSound-set_field,
  IsSound-set_device_label,
}

module _ {msg : Memory} {m : Message} (h : Holds msg m) where
  abbrev bytes : List ℕ
  bytes = m.request.param_data

  small : (i : ℕ) → mem_of bytes i < 256
  small i = mem_of-lt bytes i h.are_bytes

  int_lem : 2 ≤ length bytes → request_int msg ≡ int_of bytes
  int_lem two =
      rw (h.bytes 0 (omega arith), h.bytes 1 (omega arith)) (omega (arith, small 0, small 1))

  long_lem : 4 ≤ length bytes → request_long msg ≡ long_of bytes
  long_lem four =
      rw
        (
          h.bytes 0 (omega arith),
          h.bytes 1 (omega arith),
          h.bytes 2 (omega arith),
          h.bytes 3 (omega arith),
        )
        (omega (arith, small 0, small 1, small 2, small 3))

  -- The data is looked at only when its length is right.
  refuse_lem :
      (n : ℕ) (bad bad' : Bool)
      → (length bytes ≡ n → bad ≡ bad')
      → refuse (not (msg 23 == n)) bad ≡ refuse (not (length bytes == n)) bad'
  refuse_lem n bad bad' same = rw (h.size) (elim (Bool-cases (length bytes == n)) [
    | inl right ↦ rw (right, same (==→eq _ _ right))
    | inr wrong ↦ rw wrong
  ])

  sensor_lem :
      length bytes ≡ 1 → no_sensor msg ≡ (not (byte_of bytes == 0) && not (byte_of bytes == 0xff))
  sensor_lem one = rw (h.bytes 0 (omega arith))

  pub check_lem : (s : SetHandler) → set_check s msg ≡ check s bytes
  unfolding set_check check
  check_lem set_language = refuse_lem 2 _ _ (λ two.
      let e = h.bytes 0 (omega arith) in let n = h.bytes 1 (omega arith) in ground (arith, e, n))
  check_lem set_device_label = rw (h.size)
  check_lem set_personality = refuse_lem 1 _ _ (λ one. rw (h.bytes 0 (omega arith)))
  check_lem set_start_address = refuse_lem 2 _ _ (λ two. rw (int_lem (omega arith)))
  check_lem set_sensor_value = refuse_lem 1 _ _ sensor_lem
  check_lem record_sensor = refuse_lem 1 _ _ sensor_lem
  check_lem set_device_power_cycles = refuse_lem 4 false false (λ four. refl)
  check_lem set_identify_device =
      refuse_lem 1 _ _ (λ one. rw (h.bytes 0 (omega arith)) (ground arith))
  check_lem set_serial = refuse_lem 4 _ _ (λ four. rw (long_lem (omega arith)))

  denied :
      (b : Bool) (reason : NackReason)
      → unless_broadcast b (nacks msg reason) ≡ unless_broadcast b (denies m.request reason)
  denied b reason = rw (nacks_lem h)

  pub refusal_lem :
      (s : SetHandler) (reason : NackReason)
      → refusal s (is_to_all m.request) msg reason ≡ deny s m.request reason
  unfolding refusal deny
  refusal_lem set_sensor_value data_out_of_range = nacks_lem h data_out_of_range
  refusal_lem s reason = denied (is_to_all m.request) reason

  module _ {S : Type 0} ⦃e : Eeprom S⦄ (board : Board) (d : Device S) where
    pub set_answer_lem :
        (s : SetHandler)
        → check s bytes ≡ none
        → set_answer board s (is_to_all m.request) msg d ≡ confirm board s m.request (view d)
    unfolding set_answer confirm
    set_answer_lem set_device_label ok = rw (answer_lem h)
    set_answer_lem set_sensor_value ok =
        let one : length bytes ≡ 1 = (unfold check in ground (arith, ok)) in
        rw (sensor_bytes_lem h board d (omega arith)) (acks_lem h _)
    set_answer_lem s ok = rw (acks_lem h)

    pub set_after_lem : (s : SetHandler) (b : Bool) → view (set_after s b d) ≡ remember s b (view d)
    unfolding set_after remember
    set_after_lem set_device_label false = refl
    set_after_lem s b = refl

    pub set_before_lem :
        (s : SetHandler)
        → check s bytes ≡ none
        → view (set_before board s msg d) ≡ change board s bytes (view d)
    unfolding set_before change check
    set_before_lem set_language ok = refl
    set_before_lem set_device_label ok =
        rw (h.size) (view-set_device_label (λ i. msg (24 + i)) bytes d (ground (arith, ok)) h.bytes)
    set_before_lem set_personality ok =
        let one : length bytes ≡ 1 = ground (arith, ok) in
        rw (h.bytes 0 (omega arith)) (view-set_personality (byte_of bytes) d (small 0))
    set_before_lem set_start_address ok =
        let two : length bytes ≡ 2 = ground (arith, ok) in
        rw (int_lem (omega arith))
          (view-set_start_address (int_of bytes) d (omega (arith, small 0, small 1)))
    set_before_lem set_sensor_value ok =
        let high = Settings.device_power_cycles d.settings / 65536 * 65536 in
        let low : high + 0 ≡ high = omega arith in
        view-save_sensor_value 0 d (omega arith) ∙ (λ j. record (view d) { cycles = low j })
    set_before_lem record_sensor ok =
        view-save_sensor_value (read_temperature_sensor board) d
          (unfold read_temperature_sensor in omega arith)
    set_before_lem set_device_power_cycles ok =
        let four : length bytes ≡ 4 = ground (arith, ok) in
        rw (long_lem (omega arith)) (
          view-set_device_power_cycles (long_of bytes) d
            (omega (arith, small 0, small 1, small 2, small 3)))
    set_before_lem set_identify_device ok =
        let one : length bytes ≡ 1 = ground (arith, ok) in rw (h.bytes 0 (omega arith)) refl
    set_before_lem set_serial ok =
        let four : length bytes ≡ 4 = ground (arith, ok) in
        rw (long_lem (omega arith)) (
          view-set_serial_number (long_of bytes) d
            (omega (arith, small 0, small 1, small 2, small 3)))

    pub set_before-IsSound :
        (s : SetHandler)
        → check s bytes ≡ none
        → IsSound d.settings
        → IsSound (set_before board s msg d).settings
    unfolding set_before check
    set_before-IsSound set_language ok sound = sound
    set_before-IsSound set_device_label ok sound = rw (h.size) (
        IsSound-set_device_label (λ i. msg (24 + i)) bytes d (ground (arith, ok)) h.bytes
          h.are_bytes)
    set_before-IsSound set_personality ok sound = IsSound-set_field mode _ _ sound
    set_before-IsSound set_start_address ok sound = IsSound-set_field address _ _ sound
    set_before-IsSound set_sensor_value ok sound = IsSound-set_field sensor _ _ sound
    set_before-IsSound record_sensor ok sound = IsSound-set_field sensor _ _ sound
    set_before-IsSound set_device_power_cycles ok sound = IsSound-set_field cycles _ _ sound
    set_before-IsSound set_identify_device ok sound = sound
    set_before-IsSound set_serial ok sound = IsSound-set_field serial _ _ sound
