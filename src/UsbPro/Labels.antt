-- ===== src/UsbPro/Labels.antt =====
-- MessageLabels.h.
use rgbmixer.Base.{ℕ}

abbrev pub parameters_label : ℕ
parameters_label = 3

abbrev pub dmx_data_label : ℕ
dmx_data_label = 6

abbrev pub serial_number_label : ℕ
serial_number_label = 10

abbrev pub manufacturer_label : ℕ
manufacturer_label = 77

abbrev pub name_label : ℕ
name_label = 78

abbrev pub rdm_label : ℕ
rdm_label = 82
