-- ===== src/Rdm/Handlers/Message/Frames.antt =====
-- HandleRDMMessage and the serial line.
use rgbmixer.Base.{
  ℕ, ◌≤◌, ◌≡◌, refl, Bool, true, false, ◌||◌, ◌++◌, Option, none, some, ltb, ◌==◌, length, arith,
  Bool-cases, inl, inr, ◌∙◌, ap, sym,
}
use rgbmixer.Arduino.{Eeprom}
use rgbmixer.Device.{Device}
use rgbmixer.UsbPro.Frame.{Frame, frame_bytes}
use rgbmixer.Settings.Label.{length-device_label}
use rgbmixer.Rdm.Enums.{status_invalid_command, NackReason, data_out_of_range}
use rgbmixer.Rdm.Sender.{Memory}
use rgbmixer.Rdm.Reply.{status_frame, packet_frame, reply_packet}
use rgbmixer.Rdm.Answer.{Answer, status, reply, deliver, status_lem}
use rgbmixer.Rdm.Handlers.Tables.{
  Board, GetHandler, SetHandler, personality_entry, pid_definitions, get_queued_message,
  get_parameter_description, get_device_label, get_personality_description, get_sensor_definition,
  get_sensor_value, set_language, set_device_label, set_sensor_value, personality_count,
}
use rgbmixer.Rdm.Handlers.Get.Refines.{personality_entry_out, personality_entry_in}
use rgbmixer.Rdm.Handlers.Get.Answers.{get_answer, after_get, describe}
use rgbmixer.Rdm.Handlers.Set.Answers.{set_before, set_answer, set_after, refusal, set_outcome}
use rgbmixer.Rdm.Handlers.Message.{
  is_malformed, verify_checksum, is_to_us, is_broadcast, is_get_or_set, handle_command,
  handle_request, handle_rdm_message,
}
use rgbmixer.Rdm.Handlers.Message.Cases.{handle_command_cases, handle_rdm_message_cases}

-- The parameter data of an answer fits a packet.
abbrev pub Fits : Answer → Type 0
Fits (status c) = Unit {0}
Fits (reply rt command_class pid param_data) = length param_data ≤ 231

module _ {S : Type 0} ⦃e : Eeprom S⦄ where
  -- The frame of an answer, by the device as it is when it answers.
  unfoldable pub frame_of : Memory → Answer → Device S → Frame
  frame_of msg (status c) d = status_frame c
  frame_of msg (reply rt command_class pid param_data) d =
      packet_frame (reply_packet msg rt command_class pid param_data d)

  pub deliver-serial :
      (msg : Memory) (a : Answer) (d : Device S)
      → (deliver msg a d).serial ≡ d.serial ++ frame_bytes (frame_of msg a d)
  unfolding deliver frame_of
  deliver-serial msg (status c) d = refl
  deliver-serial msg (reply rt command_class pid param_data) d = refl

  -- Between two states the device put out one frame, an answer to the message.
  pub record OneFrame (msg : Memory) (d d' : Device S) : Type 0 where
    pub given : Answer
    pub at : Device S
    pub fits : Fits given
    pub put_out : d'.serial ≡ d.serial ++ frame_bytes (frame_of msg given at)

  pub deliver-OneFrame :
      (msg : Memory) (a : Answer) (d s : Device S)
      → s.serial ≡ d.serial
      → Fits a
      → OneFrame msg d (deliver msg a s)
  deliver-OneFrame msg a d s same fits = record {
    given = a;
    at = s;
    fits = fits;
    put_out = deliver-serial msg a s ∙ ap (λ bytes. bytes ++ frame_bytes (frame_of msg a s)) same;
  }

refusal-Fits :
    (h : SetHandler) (b : Bool) (msg : Memory) (r : NackReason) → Fits (refusal h b msg r)
unfolding refusal
refusal-Fits set_sensor_value b msg data_out_of_range = omega arith
refusal-Fits h true msg r = tt
refusal-Fits h false msg r = omega arith

describe-Fits : (msg : Memory) (number : ℕ) → Fits (describe msg number (personality_entry number))
describe-Fits msg number = elim (Bool-cases (number == 0 || ltb personality_count number)) [
  | inl out ↦ rw (personality_entry_out number out) (omega arith)
  | inr inside ↦
      let (p, found, short) = personality_entry_in number inside in rw found (omega arith)
]

module _ {S : Type 0} ⦃e : Eeprom S⦄ where
  get_answer-Fits :
      (board : Board) (h : GetHandler) (msg : Memory) (d : Device S)
      → Fits (get_answer board h msg d)
  unfolding get_answer pid_definitions
  get_answer-Fits board get_queued_message msg d = ground arith
  get_answer-Fits board get_parameter_description msg d = ground arith
  get_answer-Fits board get_device_label msg d =
      omega (arith, length-device_label d.settings 32 (omega arith))
  get_answer-Fits board get_personality_description msg d = describe-Fits msg (msg 24)
  get_answer-Fits board get_sensor_definition msg d = ground arith
  get_answer-Fits board get_sensor_value msg d = ground arith
  get_answer-Fits board h msg d = omega arith

  pub after_get-serial :
      (h : GetHandler) (msg : Memory) (d : Device S) → (after_get h msg d).serial ≡ d.serial
  unfolding after_get
  after_get-serial get_queued_message msg d = ground arith
  after_get-serial h msg d = refl

  pub set_before-serial :
      (board : Board) (h : SetHandler) (msg : Memory) (d : Device S)
      → (set_before board h msg d).serial ≡ d.serial
  unfolding set_before
  set_before-serial board set_language msg d = refl
  set_before-serial board h msg d = refl

  pub set_after-serial :
      (h : SetHandler) (b : Bool) (d : Device S) → (set_after h b d).serial ≡ d.serial
  unfolding set_after
  set_after-serial set_device_label false d = refl
  set_after-serial h b d = refl

  set_answer-Fits :
      (board : Board) (h : SetHandler) (b : Bool) (msg : Memory) (d : Device S)
      → Fits (set_answer board h b msg d)
  unfolding set_answer
  set_answer-Fits board set_device_label true msg d = omega arith
  set_answer-Fits board set_device_label false msg d = omega arith
  set_answer-Fits board set_sensor_value b msg d = omega arith
  set_answer-Fits board h true msg d = omega arith
  set_answer-Fits board h false msg d = omega arith

  pub set_outcome-OneFrame :
      (board : Board) (h : SetHandler) (b : Bool) (msg : Memory) (c : Option NackReason)
      (d : Device S)
      → OneFrame msg d (set_outcome board h b msg c d)
  unfolding set_outcome deliver-OneFrame
  set_outcome-OneFrame board h b msg (some reason) d =
      deliver-OneFrame msg _ d d refl (refusal-Fits h b msg reason)
  set_outcome-OneFrame board h b msg none d =
      let d' = set_before board h msg d in
      let a = set_answer board h b msg d' in
      let sent =
        deliver-OneFrame msg a d d' (set_before-serial board h msg d)
          (set_answer-Fits board h b msg d') in
      record {
        given = a;
        at = d';
        fits = sent.fits;
        put_out = set_after-serial h b (deliver msg a d') ∙ sent.put_out;
      }

  pub handle_command-OneFrame :
      (board : Board) (msg : Memory) (d : Device S) → OneFrame msg d (handle_command board msg d)
  handle_command-OneFrame board msg d =
      handle_command_cases board msg d (OneFrame msg d) (λ c. deliver-OneFrame msg _ d d refl tt)
        (λ reason one. deliver-OneFrame msg _ d d refl (omega arith))
        (λ h get one.
          deliver-OneFrame msg _ d (after_get h msg d) (after_get-serial h msg d)
            (get_answer-Fits board h msg d))
        (λ p h set found is_h. set_outcome-OneFrame board h (is_broadcast msg) msg _ d)

  -- The rule of Cases, for what one frame gives.
  pub one_frame_cases {ℓ} :
      (board : Board) (msg : Memory) (size : ℕ) (d : Device S) (P : Device S → Type ℓ)
      → ((d' : Device S) → OneFrame msg d d' → P d')
      → (is_get_or_set msg ≡ false
          → P (handle_command board msg (deliver msg (status status_invalid_command) d)))
      → P (handle_rdm_message board msg size d)
  one_frame_cases board msg size d P on_frame on_invalid =
      handle_rdm_message_cases board msg d P (λ c. on_frame _ (deliver-OneFrame msg _ d d refl tt))
        (λ reason one. on_frame _ (deliver-OneFrame msg _ d d refl (omega arith)))
        (λ h get one. on_frame _ (
          deliver-OneFrame msg _ d (after_get h msg d) (after_get-serial h msg d)
            (get_answer-Fits board h msg d)))
        (λ p h set found is_h. on_frame _ (set_outcome-OneFrame board h (is_broadcast msg) msg _ d))
        size on_invalid

-- A message whose command class is GET or SET is answered by one frame exactly, be it well formed
-- and for this device or not: a status frame, or a packet whose data fits.
pub handle_rdm_message-OneFrame :
    {S : Type 0} ⦃e : Eeprom S⦄ (board : Board) (msg : Memory) (size : ℕ) (d : Device S)
    → is_get_or_set msg ≡ true
    → OneFrame msg d (handle_rdm_message board msg size d)
handle_rdm_message-OneFrame board msg size d known =
    one_frame_cases board msg size d (OneFrame msg d) (λ d' h. h)
      (λ other. absurd (let e : true ≡ false = sym known ∙ other in cc))

-- A message for this device of any other class is answered twice: by the status for an invalid
-- command, and then by a second frame, as the code goes on as for a SET.
pub handle_rdm_message-invalid_command :
    {S : Type 0} ⦃e : Eeprom S⦄ (board : Board) (msg : Memory) (size : ℕ) (d : Device S)
    → is_malformed msg size ≡ false
    → verify_checksum msg size ≡ true
    → is_to_us msg d.settings ≡ true
    → is_get_or_set msg ≡ false
    → (a : Answer) × (s : Device S) × ((handle_rdm_message board msg size d).serial
        ≡ (d.serial ++ frame_bytes (status_frame status_invalid_command))
          ++ frame_bytes (frame_of msg a s))
unfolding handle_rdm_message handle_request
handle_rdm_message-invalid_command board msg size d formed right us other =
    let told = deliver msg (status status_invalid_command) d in
    let second = handle_command-OneFrame board msg told in
    let first = deliver-serial msg (status status_invalid_command) d in
    (
      second.given,
      second.at,
      rw (formed, right, us, other, status_lem msg status_invalid_command d)
          (second.put_out
            ∙ ap (λ bytes. bytes ++ frame_bytes (frame_of msg second.given second.at))
                (first ∙ (unfold frame_of in refl))),
    )
