-- ===== src/Responder/Keeps.antt =====
-- The device of main.cpp against what the responder does, in any number of frames.
use rgbmixer.Base.{◌≡◌, ◌∙◌, sym, ap, subst, List, [], ◌∷◌, ◌++◌, append-nil}
use rgbmixer.Arduino.{Eeprom}
use rgbmixer.Device.{Device}
use rgbmixer.UsbPro.Frame.{Frame, frame_bytes, stream}
use rgbmixer.Responder.{Responder}
use rgbmixer.Responder.View.{view, IsSound}

-- The device is then in the state that is promised, and put out the frames that are promised.
pub record Keeps {S : Type 0} ⦃e : Eeprom S⦄ (d d' : Device S) (r : Responder × List Frame)
    : Type 0 where
  pub state : view d' ≡ r.0
  pub told : d'.serial ≡ d.serial ++ stream r.1
  pub sound : IsSound d'.settings

module _ {S : Type 0} ⦃e : Eeprom S⦄ where
  pub puts_out :
      (d d' : Device S) (f : Frame)
      → d'.settings ≡ d.settings
      → view d' ≡ view d
      → d'.serial ≡ d.serial ++ frame_bytes f
      → IsSound d.settings
      → Keeps d d' (view d, f ∷ [])
  unfolding stream
  puts_out d d' f same seen told sound = record {
    state = seen;
    told = told ∙ ap (λ bytes. d.serial ++ bytes) (sym (append-nil (frame_bytes f)));
    sound = subst IsSound (sym same) sound;
  }

  -- The outputs are no part of the state.
  abbrev pub Quiet : Device S → Device S → Type 0
  Quiet d d' = (view d' ≡ view d) × (d'.serial ≡ d.serial) × (d'.settings ≡ d.settings)

  pub quiet_lem : (d d' : Device S) → Quiet d d' → IsSound d.settings → Keeps d d' (view d, [])
  unfolding stream
  quiet_lem d d' same sound = record {
    state = same.0;
    told = same.1 ∙ sym (append-nil d.serial);
    sound = subst IsSound (sym same.2) sound;
  }
