-- ===== src/UsbPro/Frame.antt =====
-- The frame format, described apart from the code that writes and reads it.
use rgbmixer.Base.{ℕ, ◌/◌, ◌%◌, ◌≡◌, refl, List, [], ◌∷◌, ◌++◌, append_assoc, length}

abbrev pub som : ℕ
som = 0x7e

abbrev pub eom : ℕ
eom = 0xe7

pub record Frame : Type 0 where
  pub label : ℕ
  pub payload : List ℕ

-- A size in two bytes, the low one first.
unfoldable pub frame_bytes : Frame → List ℕ
frame_bytes f =
    som ∷ f.label ∷ length f.payload % 256 ∷ length f.payload / 256 % 256 ∷ (f.payload ++ eom ∷ [])

unfoldable pub stream : List Frame → List ℕ
stream [] = []
stream (f ∷ fs) = frame_bytes f ++ stream fs

pub stream-append : (fs gs : List Frame) → stream (fs ++ gs) ≡ stream fs ++ stream gs
unfolding stream
stream-append [] gs = refl
stream-append (f ∷ fs) gs = rw (stream-append fs gs, append_assoc)
