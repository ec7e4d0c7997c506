-- ===== src/Lib.antt =====
-- The firmware of the RGB mixer, a USB Pro widget that is an RDM responder with six PWM outputs.
--
-- main.cpp sets the device up and hands TakeAction and Idle to UsbProReceiver, whose Read loops for
-- ever over the bytes of the serial line. A whole message is given to TakeAction, which sets the
-- outputs, answers about the device by UsbProSender, or gives an RDM packet to RDMHandler. That
-- checks the packet, finds the parameter in its table and calls the GET or SET handler, which reads
-- and changes WidgetSettings (kept in the EEPROM) and answers by RDMSender. When the line is silent,
-- Idle writes a device label that waits.
--
-- Files:
--   Base, Base/Tests, Base/Lists, Base/Words: names of the libraries, Boolean tests, lists and
--     memories, and the widths of the target.
--   Arduino: what the Arduino libraries give. The EEPROM is an interface with laws.
--   Settings: WidgetSettings.h, WidgetSettings.cpp. Settings/Words on the ints and longs in the
--     EEPROM, Settings/Label and Written on the device label, Settings/Start, Defaults and Restart on
--     Init, Settings/Coherent and Copies on the copies in RAM,
--     Settings/Fields on the settings as a store of fields.
--   Device: the global objects of main.cpp as one state, and commands on it.
--   Common: Common.h.
--   UsbPro/Labels: MessageLabels.h. UsbPro/Sender: UsbProSender.h, UsbProSender.cpp.
--   UsbPro/Frame: the frame format, apart from the code.
--   UsbPro/Receiver: UsbProReceiver.h, UsbProReceiver.cpp. Receiver/Steps, Frames, Streams and Noise
--     on what it reads, Receiver/Pauses on frames that come slowly, Receiver/Reach on its states,
--     Receiver/Induction and Bytes on what its callbacks do.
--   Rdm/Enums: RDMEnums.h. Rdm/Sender: RDMSender.h, RDMSender.cpp.
--   Rdm/Packet: the packet format, apart from the code. Rdm/Reply, Rdm/Answer: what the sender's
--     commands put out.
--   Rdm/Handlers/Tables, Parts, Get, Set, Message: RDMHandlers.h, RDMHandlers.cpp. Get/Answers and
--     Set/Answers are specifications of the handlers; Get/Laws, Get/Refines, Set/Refines relate the
--     handlers to them. Handlers/ReadBack is about a SET and the GET after it, Handlers/Queue about
--     the queued messages. Message/Addressed, Cases, Frames, Broadcast, Keeps, OwnPackets, Ranges,
--     Rejected, Corrupt, Decide, Faults, Lookup, Agree, Requests and Invariant are about HandleRDMMessage.
--     Message/Parameters lists the parameters apart from the table of the code, and Message/Judged
--     has the checks and the decision on a message apart from the code.
--   Mixer: main.cpp. Mixer/Actions on TakeAction, Mixer/Output on the outputs, Mixer/Dark on
--     outputs that stay dark, Mixer/Pins and Pins/Run on the pins, Mixer/Stream and Loopback on the
--     serial line, Mixer/Serve on a request from the
--     line to its handler, Mixer/Queue on the queued messages, Mixer/Invariant, Ranges and Restart on the
--     settings over a run.
--   Responder: what the device promises, apart from the EEPROM, the buffers and the bytes of
--     main.cpp, RDMHandlers.cpp, RDMSender.cpp and WidgetSettings.cpp: a state, what a message does
--     to it and the frame that answers it, what silence does, and what a loss of power does (in
--     Responder/Service).
--     Responder/Payload extends it to any bytes in a frame for RDM, Responder/Actions to all that
--     comes over the line and to the other questions of a host.
--     Responder/View takes a device to its state. Asked, Enough, Stored, Changed and Served relate
--     the handlers to it, Heard, Parsed and Hears HandleRDMMessage, Settled Idle, Keeps and Reacts
--     TakeAction, Fresh and Started Init and the start of main, Heeds and Run main, and Lives main
--     over losses of power. The pins and the LEDs are no part of the responder; Mixer/Output and Pins
--     are about them.
--   Tests, Tests/Runs, Lines, Histories, Requests, Services: concrete devices and messages.
--
-- A function keeps its name of the source, with words joined by _; a method is a function on the
-- state it changes. `record`s are the classes' fields. A pointer to a handler is a constructor that
-- names it, and the call through it is `call_get_handler` or `call_set_handler`. The body of a
-- `while` or `for` is a function by clauses that counts the rounds left; early returns are branches.
--
-- Widths: the target of the Makefile is an ATmega328P with the avr compiler, so a byte has 8 bits,
-- int and unsigned int 16, long and unsigned long 32. They are natural numbers with their
-- wrap-around written out; a signed value is its bit pattern. A received message is the memory from
-- its first byte on, a function from offsets, as the code reads it without a bound. The loop of
-- Read runs over a list of events (a byte, or a silent line), however long; no fuel is needed. A
-- write past the end of its buffer of 600 bytes ends the run with `none`.
--
-- Parameters: the EEPROM (read and write of its 1024 cells), the value of analogRead and the byte
-- that the code reads where the personality is not in its table (`Board`, given with each byte), and
-- the content of the stack before Read writes to it. `ReadTemperatureSensor` computes in floats; for
-- the 10 bits that analogRead returns, each step is exact and the model is the quotient.
--
-- Not modelled: the Arduino core (init, Serial.begin, the transfer of bytes), what an overrun does
-- to the memory behind the buffer, a loss of power within a round of the loop, such as between the
-- writes of two bytes of one setting, time, pulsedtr.py.
pub mod Base
pub mod Arduino
pub mod Settings
pub mod Device
pub mod Common
pub mod UsbPro
pub mod Rdm
pub mod Responder
pub mod Mixer
pub mod Tests
