-- ===== src/Common.antt =====
-- Common.h, with the values that main.cpp gives its variables: arrays of chars with their NUL.
use rgbmixer.Base.{ℕ, List, c_string, length}

abbrev pub device_name : List ℕ
device_name = c_string "Arduino RGB Mixer"

abbrev pub device_name_size : ℕ
device_name_size = length device_name

abbrev pub manufacturer_name : List ℕ
manufacturer_name = c_string "Open Lighting"

abbrev pub manufacturer_name_size : ℕ
manufacturer_name_size = length manufacturer_name
