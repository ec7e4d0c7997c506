-- ===== src/Rdm/Handlers/Message/Cases.antt =====
-- A rule for the properties of a handled message: it is enough to look at what is delivered.
use rgbmixer.Base.{
  ℕ, ◌≡◌, refl, true, false, not, ◌&&◌, List, [], ◌∷◌, Option, none, some, ◌==◌, Bool-cases, inl,
  inr, ==→eq, All, subst,
}
use rgbmixer.Arduino.{Eeprom}
use rgbmixer.Device.{Device}
use rgbmixer.Rdm.Enums.{
  StatusCode, status_broadcast, status_failed, status_failed_checksum, status_invalid_destination,
  status_invalid_command, NackReason, format_error, sub_device_out_of_range, unknown_pid,
  unsupported_command_class, get_command,
}
use rgbmixer.Rdm.Sender.{Memory, nack_or_broadcast}
use rgbmixer.Rdm.Answer.{status, nacks, deliver, status_lem, send_nack_lem, nack_or_broadcast_lem}
use rgbmixer.Rdm.Handlers.Tables.{Board, PidDefinition, GetHandler, SetHandler, pid_definitions}
use rgbmixer.Rdm.Handlers.Get.Answers.{get_answer, after_get}
use rgbmixer.Rdm.Handlers.Get.Refines.{call_get_handler-deliver}
use rgbmixer.Rdm.Handlers.Set.Answers.{set_check, set_outcome}
use rgbmixer.Rdm.Handlers.Set.Refines.{call_set_handler-outcome}
use rgbmixer.Rdm.Handlers.Message.{
  verify_checksum, is_malformed, is_broadcast, is_get_or_set, sub_device, param_id, find_pid,
  is_to_us, handle_get, handle_set, handle_pid, handle_command, handle_request, handle_rdm_message,
}

-- What an entry of the table that has the id satisfies, the entry that is found satisfies.
pub find_pid_sound {ℓ} :
    (P : PidDefinition → Type ℓ) (id : ℕ) (ps : List PidDefinition) (found : Option PidDefinition)
    (q : PidDefinition)
    → All (λ p. p.pid ≡ id → P p) ps
    → (found ≡ some q → P q)
    → find_pid id ps found ≡ some q
    → P q
unfolding find_pid
find_pid_sound P id [] found q all seen h = seen h
find_pid_sound P id (p ∷ ps) found q all seen h = elim (Bool-cases (p.pid == id)) [
  | inl same ↦
      find_pid_sound P id ps (some p) q all.1
        (λ e. let eq : p ≡ q = cc in subst P eq (all.0 (==→eq _ _ same))) (rw same at h)
  | inr other ↦ find_pid_sound P id ps found q all.1 seen (rw other at h)
]

module _ {ℓ} {S : Type 0} ⦃e : Eeprom S⦄ (board : Board) (msg : Memory) (d : Device S)
    (P : Device S → Type ℓ) (on_status : (c : StatusCode) → P (deliver msg (status c) d))
    (on_nack : (reason : NackReason)
      → is_broadcast msg ≡ false
      → P (deliver msg (nacks msg reason) d))
    (on_get : (h : GetHandler)
      → (msg 20 == get_command) ≡ true
      → is_broadcast msg ≡ false
      → P (deliver msg (get_answer board h msg d) (after_get h msg d)))
    (on_set : (p : PidDefinition) (h : SetHandler)
      → (msg 20 == get_command) ≡ false
      → find_pid (param_id msg) pid_definitions none ≡ some p
      → p.set_handler ≡ some h
      → P (set_outcome board h (is_broadcast msg) msg (set_check h msg) d)) where
  on_refusal : (reason : NackReason) → P (nack_or_broadcast (is_broadcast msg) msg reason d)
  on_refusal reason =
      rw (nack_or_broadcast_lem (is_broadcast msg) msg reason d)
        (elim (Bool-cases (is_broadcast msg)) [
          | inl all ↦ rw all (on_status status_broadcast)
          | inr one ↦ rw one (on_nack reason one)
        ])

  handle_get_cases :
      (p : PidDefinition) (h : Option GetHandler)
      → (msg 20 == get_command) ≡ true
      → P (handle_get board msg p h d)
  unfolding handle_get
  handle_get_cases p none get = on_refusal unsupported_command_class
  handle_get_cases p (some h) get = elim (Bool-cases (is_broadcast msg)) [
    | inl all ↦ rw (all, status_lem msg status_broadcast d) (on_status status_broadcast)
    | inr one ↦ rw one (elim (Bool-cases (sub_device msg == 0)) [
      | inr other ↦
          rw (other, send_nack_lem msg sub_device_out_of_range d)
            (on_nack sub_device_out_of_range one)
      | inl root ↦ rw root (elim (Bool-cases (msg 23 == p.get_argument_size)) [
        | inr wrong ↦ rw (wrong, send_nack_lem msg format_error d) (on_nack format_error one)
        | inl right ↦ rw (right, call_get_handler-deliver board h msg d) (on_get h get one)
      ])
    ])
  ]

  handle_set_cases :
      (p : PidDefinition) (h : Option SetHandler)
      → (msg 20 == get_command) ≡ false
      → find_pid (param_id msg) pid_definitions none ≡ some p
      → p.set_handler ≡ h
      → P (handle_set board msg h d)
  unfolding handle_set
  handle_set_cases p none set found is_h = on_refusal unsupported_command_class
  handle_set_cases p (some h) set found is_h =
      rw (call_set_handler-outcome board h (is_broadcast msg) (sub_device msg) msg d)
        (on_set p h set found is_h)

  handle_pid_cases :
      (o : Option PidDefinition)
      → find_pid (param_id msg) pid_definitions none ≡ o
      → P (handle_pid board msg o d)
  unfolding handle_pid
  handle_pid_cases none found = on_refusal unknown_pid
  handle_pid_cases (some p) found = elim (Bool-cases (msg 20 == get_command)) [
    | inl get ↦ rw get (handle_get_cases p p.get_handler get)
    | inr set ↦ rw set (handle_set_cases p p.set_handler set found refl)
  ]

  pub handle_command_cases : P (handle_command board msg d)
  unfolding handle_command
  handle_command_cases =
      elim (Bool-cases (not (sub_device msg == 0) && not (sub_device msg == 0xffff))) [
        | inl out ↦ rw out (on_refusal sub_device_out_of_range)
        | inr inside ↦ rw inside (handle_pid_cases _ refl)
      ]

  -- A message whose class is neither GET nor SET has a rule of its own.
  pub handle_rdm_message_cases :
      (size : ℕ)
      → (is_get_or_set msg ≡ false
          → P (handle_command board msg (deliver msg (status status_invalid_command) d)))
      → P (handle_rdm_message board msg size d)
  unfolding handle_rdm_message handle_request
  handle_rdm_message_cases size on_invalid = elim (Bool-cases (is_malformed msg size)) [
    | inl bad ↦ rw (bad, status_lem msg status_failed d) (on_status status_failed)
    | inr formed ↦ rw formed (elim (Bool-cases (verify_checksum msg size)) [
      | inr bad ↦
          rw (bad, status_lem msg status_failed_checksum d) (on_status status_failed_checksum)
      | inl right ↦ rw right (elim (Bool-cases (is_to_us msg d.settings)) [
        | inl us ↦ rw us (elim (Bool-cases (is_get_or_set msg)) [
          | inl known ↦ rw known handle_command_cases
          | inr other ↦ rw (other, status_lem msg status_invalid_command d) (on_invalid other)
        ])
        | inr others ↦ rw others (elim (Bool-cases (is_broadcast msg)) [
          | inl all ↦ rw (all, status_lem msg status_broadcast d) (on_status status_broadcast)
          | inr one ↦
              rw (one, status_lem msg status_invalid_destination d)
                (on_status status_invalid_destination)
        ])
      ])
    ])
  ]
