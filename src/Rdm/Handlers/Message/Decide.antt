-- ===== src/Rdm/Handlers/Message/Decide.antt =====
-- HandleRDMMessage of RDMHandlers.cpp on the messages that it handles, as a decision and what
-- follows from it.
use rgbmixer.Base.{
  arith, ◌||◌, ℕ, Bool, ◌≡◌, true, false, not, ◌&&◌, Option, none, some, ◌==◌, if◌then◌else◌,
  Bool-cases, inl, inr,
}
use rgbmixer.Arduino.{Eeprom}
use rgbmixer.Device.{Device}
use rgbmixer.Rdm.Enums.{
  status_broadcast, get_command, NackReason, unknown_pid, format_error, unsupported_command_class,
  sub_device_out_of_range,
}
use rgbmixer.Rdm.Sender.{Memory}
use rgbmixer.Rdm.Answer.{
  nacks, deliver, unless_broadcast, status_lem, send_nack_lem, nack_or_broadcast_lem,
}
use rgbmixer.Rdm.Handlers.Tables.{Board, PidDefinition, GetHandler, SetHandler}
use rgbmixer.Rdm.Handlers.Get.Answers.{get_answer, after_get}
use rgbmixer.Rdm.Handlers.Get.Refines.{call_get_handler-deliver}
use rgbmixer.Rdm.Handlers.Set.Answers.{set_check, set_outcome}
use rgbmixer.Rdm.Handlers.Set.Refines.{call_set_handler-outcome}
use rgbmixer.Rdm.Handlers.Message.{
  is_malformed, verify_checksum, is_to_us, is_broadcast, is_get_or_set, sub_device, param_id,
  handle_get, handle_set, handle_pid, handle_command, handle_request, handle_rdm_message,
}
use rgbmixer.Rdm.Handlers.Message.Parameters.{parameter, parameter_lem}
use rgbmixer.Rdm.Handlers.Message.Rejected.{rejection}

-- To refuse a request, to answer a GET, to carry out a SET.
pub data Decision : Type 0 where
  refuses : NackReason → Decision
  reads : GetHandler → Decision
  writes : SetHandler → Decision

-- A GET is for the root device alone, and carries as many bytes as the table says. A broadcast GET
-- is refused for no reason that anyone hears.
unfoldable pub decide_get : Bool → ℕ → ℕ → PidDefinition → Option GetHandler → Decision
decide_get to_all sub size p none = refuses unsupported_command_class
decide_get to_all sub size p (some h) =
    if to_all || not (sub == 0)
    then refuses sub_device_out_of_range
    else if not (size == p.get_argument_size)
    then refuses format_error
    else reads h

unfoldable pub decide_set : Option SetHandler → Decision
decide_set none = refuses unsupported_command_class
decide_set (some h) = writes h

unfoldable pub decide_pid : Bool → ℕ → ℕ → ℕ → Option PidDefinition → Decision
unfolding decide_get decide_set
decide_pid to_all sub command_class size none = refuses unknown_pid
decide_pid to_all sub command_class size (some p) =
    if command_class == get_command
    then decide_get to_all sub size p p.get_handler
    else decide_set p.set_handler

-- By whether the request is a broadcast, the sub device, the class, the parameter and the data size.
unfoldable pub decide_fields : Bool → ℕ → ℕ → ℕ → ℕ → Decision
unfolding decide_pid
decide_fields to_all sub command_class pid size =
    if not (sub == 0) && not (sub == 0xffff)
    then refuses sub_device_out_of_range
    else decide_pid to_all sub command_class size (parameter pid)

abbrev pub decide : Memory → Decision
decide msg = decide_fields (is_broadcast msg) (sub_device msg) (msg 20) (param_id msg) (msg 23)

module _ {S : Type 0} ⦃e : Eeprom S⦄ where
  unfoldable pub perform : Board → Memory → Decision → Device S → Device S
  perform board msg (refuses reason) d =
      deliver msg (unless_broadcast (is_broadcast msg) (nacks msg reason)) d
  perform board msg (reads h) d = deliver msg (get_answer board h msg d) (after_get h msg d)
  perform board msg (writes h) d = set_outcome board h (is_broadcast msg) msg (set_check h msg) d

  handle_get_lem :
      (board : Board) (msg : Memory) (p : PidDefinition) (h : Option GetHandler) (d : Device S)
      → handle_get board msg p h d
        ≡ perform board msg (decide_get (is_broadcast msg) (sub_device msg) (msg 23) p h) d
  unfolding handle_get decide_get perform
  handle_get_lem board msg p none d = nack_or_broadcast_lem (is_broadcast msg) msg _ d
  handle_get_lem board msg p (some h) d = elim (Bool-cases (is_broadcast msg)) [
    | inl all ↦ rw (all, perform, all) (status_lem msg status_broadcast d)
    | inr one ↦ rw one (elim (Bool-cases (sub_device msg == 0)) [
      | inr other ↦ rw (other, one) (send_nack_lem msg sub_device_out_of_range d)
      | inl root ↦ rw root (elim (Bool-cases (msg 23 == p.get_argument_size)) [
        | inr wrong ↦ rw (wrong, one) (send_nack_lem msg format_error d)
        | inl right ↦ rw right (call_get_handler-deliver board h msg d)
      ])
    ])
  ]

  handle_set_lem :
      (board : Board) (msg : Memory) (h : Option SetHandler) (d : Device S)
      → handle_set board msg h d ≡ perform board msg (decide_set h) d
  unfolding handle_set decide_set perform
  handle_set_lem board msg none d = nack_or_broadcast_lem (is_broadcast msg) msg _ d
  handle_set_lem board msg (some h) d =
      call_set_handler-outcome board h (is_broadcast msg) (sub_device msg) msg d

  handle_pid_lem :
      (board : Board) (msg : Memory) (o : Option PidDefinition) (d : Device S)
      → handle_pid board msg o d
        ≡ perform board msg (decide_pid (is_broadcast msg) (sub_device msg) (msg 20) (msg 23) o) d
  unfolding handle_pid decide_pid
  handle_pid_lem board msg none d =
      unfold perform in nack_or_broadcast_lem (is_broadcast msg) msg unknown_pid d
  handle_pid_lem board msg (some p) d = elim (Bool-cases (msg 20 == get_command)) [
    | inl get ↦ rw get (handle_get_lem board msg p p.get_handler d)
    | inr set ↦ rw set (handle_set_lem board msg p.set_handler d)
  ]

  pub handle_command_lem :
      (board : Board) (msg : Memory) (d : Device S)
      → handle_command board msg d ≡ perform board msg (decide msg) d
  unfolding handle_command decide_fields
  handle_command_lem board msg d =
      elim (Bool-cases (not (sub_device msg == 0) && not (sub_device msg == 0xffff))) [
        | inl out ↦ rw out (
            unfold perform in
            nack_or_broadcast_lem (is_broadcast msg) msg sub_device_out_of_range d)
        | inr inside ↦ rw (inside, parameter_lem) (handle_pid_lem board msg _ d)
      ]

  pub not-rejected :
      (msg : Memory) (size : ℕ) (d : Device S)
      → rejection msg size d ≡ none
      → (is_malformed msg size ≡ false)
        × (verify_checksum msg size ≡ true)
        × (is_to_us msg d.settings ≡ true)
  unfolding rejection
  not-rejected msg size d h = ground arith

-- A GET or SET that passes the checks is carried out as the decision on it says: the handler of the
-- table is called, or the request is refused by a packet with the reason, and a broadcast by a
-- status alone.
pub handle_rdm_message-perform :
    {S : Type 0} ⦃e : Eeprom S⦄ (board : Board) (msg : Memory) (size : ℕ) (d : Device S)
    → rejection msg size d ≡ none
    → is_get_or_set msg ≡ true
    → handle_rdm_message board msg size d ≡ perform board msg (decide msg) d
unfolding handle_rdm_message handle_request
handle_rdm_message-perform board msg size d ours known =
    let (formed, right, us) = not-rejected msg size d ours in
    rw (formed, right, us, known) (handle_command_lem board msg d)
