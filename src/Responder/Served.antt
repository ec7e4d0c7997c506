-- ===== src/Responder/Served.antt =====
-- HandleRDMMessage on a message that is held in memory, against what the responder does with it.
use rgbmixer.Base.{◌≡◌, ◌∙◌, refl, sym, ap, subst, Bool, ◌++◌, Option, none, some, arith}
use rgbmixer.Arduino.{Eeprom}
use rgbmixer.Device.{Device}
use rgbmixer.UsbPro.Frame.{Frame, frame_bytes}
use rgbmixer.Rdm.Enums.{NackReason}
use rgbmixer.Rdm.Sender.{Memory}
use rgbmixer.Rdm.Answer.{Answer, deliver}
use rgbmixer.Rdm.Handlers.Tables.{Board, GetHandler, SetHandler}
use rgbmixer.Rdm.Handlers.Get.Answers.{after_get}
use rgbmixer.Rdm.Handlers.Set.Answers.{set_before, set_after, set_outcome}
use rgbmixer.Rdm.Handlers.Message.Decide.{Decision, refuses, reads, writes, perform}
use rgbmixer.Rdm.Handlers.Message.Invariant.{
  deliver-settings, after_get-settings, set_after-settings,
}
use rgbmixer.Rdm.Handlers.Message.Requests.{decide_request}
use rgbmixer.Responder.{Responder, Message, check, confirm, remember, is_to_all}
use rgbmixer.Responder.Service.{carry_out, set_by, answer_frame}
use rgbmixer.Responder.View.{view, IsSound, Holds, deliver-serial, deliver-view, nacks_lem}
use rgbmixer.Responder.Asked.{get_answer_lem, after_get_lem}
use rgbmixer.Responder.Enough.{reads-needed}
use rgbmixer.Responder.Changed.{
  check_lem, refusal_lem, set_answer_lem, set_after_lem, set_before_lem, set_before-IsSound,
}

-- The device is then in the state that the responder is in, and put out the responder's frame.
pub record Does {S : Type 0} ⦃e : Eeprom S⦄ (d d' : Device S) (r : Responder × Frame) : Type 0 where
  pub state : view d' ≡ r.0
  pub told : d'.serial ≡ d.serial ++ frame_bytes r.1
  pub sound : IsSound d'.settings

module _ {msg : Memory} {m : Message} (h : Holds msg m) {S : Type 0} ⦃e : Eeprom S⦄
    (board : Board) where
  delivered :
      (a b : Answer) (d d' : Device S) (v' : Responder)
      → a ≡ b
      → view d' ≡ v'
      → d'.serial ≡ d.serial
      → IsSound d'.settings
      → Does d (deliver msg a d') (v', answer_frame m b v')
  delivered a b d d' v' same seen silent sound = record {
    state = deliver-view h a d' ∙ seen;
    told =
        deliver-serial h a d' ∙ (λ j. silent j ++ frame_bytes (answer_frame m (same j) (seen j)));
    sound = subst IsSound (sym (deliver-settings msg a d')) sound;
  }

  after_get-serial : (g : GetHandler) (d : Device S) → (after_get g msg d).serial ≡ d.serial
  unfolding after_get
  after_get-serial g d = ground arith

  set_before-serial : (s : SetHandler) (d : Device S) → (set_before board s msg d).serial ≡ d.serial
  unfolding set_before
  set_before-serial s d = ground arith

  set_after-serial :
      (s : SetHandler) (b : Bool) (d : Device S) → (set_after s b d).serial ≡ d.serial
  unfolding set_after
  set_after-serial s b d = ground arith

  remembered :
      (s : SetHandler) (b : Bool) (d d' : Device S) (v' : Responder) (f : Frame)
      → Does d d' (v', f)
      → Does d (set_after s b d') (remember s b v', f)
  remembered s b d d' v' f does = record {
    state = set_after_lem h board d' s b ∙ ap (remember s b) does.state;
    told = set_after-serial s b d' ∙ does.told;
    sound = subst IsSound (sym (set_after-settings s b d')) does.sound;
  }

  set_lem :
      (s : SetHandler) (c : Option NackReason) (d : Device S)
      → check s m.request.param_data ≡ c
      → IsSound d.settings
      → Does d (set_outcome board s (is_to_all m.request) msg c d) (set_by board s m c (view d))
  unfolding set_outcome set_by
  set_lem s (some reason) d e sound =
      delivered _ _ d d (view d) (refusal_lem h s reason) refl refl sound
  set_lem s none d ok sound =
      let d' = set_before board s msg d in
      let changed = set_before_lem h board d s ok in
      remembered s (is_to_all m.request) d _ _ _ (
        delivered _ _ d d' _
          (set_answer_lem h board d' s ok ∙ ap (confirm board s m.request) changed) changed
          (set_before-serial s d) (set_before-IsSound h board d s ok sound))

  pub perform_lem :
      (c : Decision) (d : Device S)
      → decide_request m.request ≡ c
      → IsSound d.settings
      → Does d (perform board msg c d) (carry_out board m c (view d))
  unfolding perform carry_out
  perform_lem (refuses reason) d e sound =
      delivered _ _ d d (view d) (rw (h.to_all, nacks_lem h)) refl refl sound
  perform_lem (reads g) d decided sound =
      let enough = reads-needed _ _ _ _ _ g decided in
      delivered _ _ d (after_get g msg d) _ (get_answer_lem h board d g enough)
        (after_get_lem h board d g enough) (after_get-serial g d)
        (subst IsSound (sym (after_get-settings g msg d)) sound)
  perform_lem (writes s) d decided sound =
      rw (h.to_all, check_lem h s) (set_lem s (check s m.request.param_data) d refl sound)
