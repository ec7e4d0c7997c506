-- ===== src/Rdm/Handlers/Message/Broadcast.antt =====
-- HandleRDMMessage on a broadcast.
use rgbmixer.Base.{
  ℕ, ◌≡◌, refl, ◌≢◌, Bool, true, false, ◌++◌, Option, none, some, arith, Bool-cases, inl, inr, ◌∙◌,
  sym,
}
use rgbmixer.Arduino.{Eeprom}
use rgbmixer.Device.{Device}
use rgbmixer.UsbPro.Frame.{frame_bytes}
use rgbmixer.Rdm.Enums.{StatusCode, status_broadcast, NackReason, pid_sensor_value}
use rgbmixer.Rdm.Sender.{Memory}
use rgbmixer.Rdm.Reply.{status_frame}
use rgbmixer.Rdm.Answer.{status, deliver}
use rgbmixer.Rdm.Handlers.Tables.{
  Board, PidDefinition, SetHandler, pid_definitions, set_sensor_value,
}
use rgbmixer.Rdm.Handlers.Set.Answers.{
  set_check, set_outcome, refusal, set_answer, set_before, set_after,
}
use rgbmixer.Rdm.Handlers.Message.{
  is_broadcast, is_get_or_set, param_id, handle_rdm_message, find_pid,
}
use rgbmixer.Rdm.Handlers.Message.Cases.{handle_rdm_message_cases, find_pid_sound}

-- Is the handler that of SENSOR_VALUE, which answers broadcasts too?
abbrev answers_all : Option SetHandler → Bool
answers_all (some set_sensor_value) = true
answers_all h = false

find_pid_sensor :
    (id : ℕ) (p : PidDefinition)
    → find_pid id pid_definitions none ≡ some p
    → answers_all p.set_handler ≡ true
    → id ≡ pid_sensor_value
unfolding pid_definitions
find_pid_sensor id p found =
    find_pid_sound (λ q. answers_all q.set_handler ≡ true → id ≡ pid_sensor_value) id
      pid_definitions none p (grind arith) (λ e. cc) found

module _ {S : Type 0} ⦃e : Eeprom S⦄ where
  status-serial :
      (msg : Memory) (c : StatusCode) (d : Device S)
      → (deliver msg (status c) d).serial ≡ d.serial ++ frame_bytes (status_frame c)
  unfolding deliver
  status-serial msg c d = refl

  refused-serial :
      (h : SetHandler) (msg : Memory) (r : NackReason) (d : Device S)
      → answers_all (some h) ≡ false
      → (deliver msg (refusal h true msg r) d).serial
        ≡ d.serial ++ frame_bytes (status_frame status_broadcast)
  unfolding deliver refusal
  refused-serial set_sensor_value msg r d other = absurd (cc)
  refused-serial h msg r d other = refl

  answered-serial :
      (board : Board) (h : SetHandler) (msg : Memory) (d : Device S)
      → answers_all (some h) ≡ false
      → (set_outcome board h true msg none d).serial
        ≡ d.serial ++ frame_bytes (status_frame status_broadcast)
  unfolding deliver set_outcome set_before set_answer set_after
  answered-serial board set_sensor_value msg d other = absurd (cc)
  answered-serial board h msg d other = refl

  outcome-serial :
      (board : Board) (h : SetHandler) (msg : Memory) (c : Option NackReason) (d : Device S)
      → answers_all (some h) ≡ false
      → (set_outcome board h true msg c d).serial
        ≡ d.serial ++ frame_bytes (status_frame status_broadcast)
  unfolding set_outcome
  outcome-serial board h msg none d other = answered-serial board h msg d other
  outcome-serial board h msg (some r) d other = refused-serial h msg r d other

-- No RDM packet answers a GET or SET that was broadcast, unless its parameter is SENSOR_VALUE:
-- the host gets a status alone.
pub handle_rdm_message-broadcast :
    {S : Type 0} ⦃e : Eeprom S⦄ (board : Board) (msg : Memory) (size : ℕ) (d : Device S)
    → is_broadcast msg ≡ true
    → is_get_or_set msg ≡ true
    → param_id msg ≢ pid_sensor_value
    → (c : StatusCode) × ((handle_rdm_message board msg size d).serial
        ≡ d.serial ++ frame_bytes (status_frame c))
handle_rdm_message-broadcast board msg size d all known other =
    handle_rdm_message_cases board msg d
      (λ d'. (c : StatusCode) × (d'.serial ≡ d.serial ++ frame_bytes (status_frame c)))
      (λ c. (c, status-serial msg c d)) (λ reason one. absurd (contradiction one))
      (λ h get one. absurd (contradiction one))
      (λ p h set found is_h. (
        status_broadcast,
        rw all (elim (Bool-cases (answers_all (some h))) [
          | inl yes' ↦ absurd (other (find_pid_sensor (param_id msg) p found (rw is_h yes')))
          | inr no' ↦ outcome-serial board h msg (set_check h msg) d no'
        ]),
      ))
      size (λ unknown. absurd (let e : true ≡ false = sym known ∙ unknown in cc))
  where
    contradiction : is_broadcast msg ≡ false → ⊥
    contradiction one = let e : true ≡ false = sym all ∙ one in cc
