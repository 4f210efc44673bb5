-- ===== src/Lib.antt =====
-- mtb-daemon: the daemon between TCP clients and MTB-USB, the interface to an MTBbus line with up to
-- 255 modules. The parts that carry the protocol, and
-- the daemon that answers requests, are modelled here.
--
-- Common (src/mtbusb/mtbusb-common.h, .cpp): the codes of messages and errors, the speeds
-- (mtbBusSpeedToInt, intToMtbBusSpeed, mtbBusSpeedValid), the addresses. Errors that the C++ code
-- throws are `none`.
--
-- Cmd (src/mtbusb/mtbusb-commands.h): a class of commands is a constructor of `Body`. `get_bytes` is
-- getBytes, Cmd/Respond holds processUsbResponse and processBusResponse, Cmd/Reply the arguments of
-- callbacks, `conflict` is conflict.
--
-- Usb (src/mtbusb/mtbusb.h): the state of MtbUsb. Usb/Queue is mtbusb-send.cpp, Usb/Timer is
-- mtbusb-hist.cpp, Usb/Frame, Usb/Match and Usb/Receive are mtbusb-receive.cpp, Usb/Port is
-- mtbusb.cpp. Every function takes the state and gives the next one. What is outside is an `Env`:
-- the callbacks of commands and the slots of signals, which may call MtbUsb again, and whether the
-- serial port takes the bytes that are written. Usb/Client says what a callback may do through the
-- public interface; theorems about runs (Usb/Run) assume that clients do no more. `may_close` tells
-- whether disconnect is part of that. Calls of callbacks, signals and written bytes are events of the
-- state; an access out of bounds is the event `undefined`, after which the model goes on and the code
-- need not. A command that is taken out of a queue is found again by its id, which stands for the
-- address of the object.
--
-- Firmware (src/modules/module.cpp, parseFirmware and alignFirmware): the blocks of a firmware, as a
-- list in the order of the keys. QString::toInt is a parameter.
--
-- Uni (src/modules/uni.h, uni.cpp and module.h, module.cpp): modules with inputs and outputs. The
-- classes MtbUni, MtbUnis and MtbLed hold the same handlers, as three copies of one text; they are
-- modelled once, for a state `IoModule k` of a kind `k`, which holds what the classes differ in
-- (`IoKind`). Uni/Setting are the requests of clients, Uni/Upgrade the upgrade of the firmware and the
-- reboot, Uni/Activation the activation, Uni/Setters the clients that have set outputs. What a module
-- does to MtbUsb, to timers and to clients is a list of effects; the callback of a command is a later
-- step. Uni/Kind is the kind of MtbUni, with Uni/Config and Uni/Outputs for its forms on the bus and
-- Uni/Form for those in JSON.
--
-- Led, Unis, Rc (src/modules/led.cpp, unis.cpp, rc.cpp): the other classes. Led/Kind and Unis/Kind are
-- their kinds, Led/Handlers and Unis/Handlers the handlers for these, Led/Form and Unis/Form the forms
-- in JSON. Rc/Handlers are the handlers of an RC module, whose kind has inputs only, Rc/Values its
-- diagnostic values.
--
-- Module (src/modules/module.cpp): MtbModule. Module/Requests is jsonCommand with the requests that it
-- leads to, Module/Replies the callbacks of all commands of a module, Module/Info what a module tells
-- of itself and whom, Module/Values its diagnostic values, Module/Io the parts of the three classes
-- that read and write JSON. Classes puts the classes behind the interface of the daemon.
--
-- Json, Json/Safe (src/qjsonsafe.cpp): values of JSON and their checked reading; JsonParseError is
-- `none`. Utils is pack, pack_reverse and invertQMap of src/utils.h. Logging is the production log
-- (src/logging.cpp, prodLog and prodInit), with whether a file opens as a parameter, Logging/Terminal
-- the lines on the terminal and in files (termLog, operator<<).
--
-- Server, Daemon (src/server.cpp, src/main.cpp, main.h): the daemon. Its state is a record; messages,
-- commands, timers and files are a list of effects, the latest first, and a callback is a value that
-- a later step (`on_ok`, `on_error`, `timeout` in Daemon/Received) is given. A handler that throws has
-- the outcome `threw`. Daemon/Received is the dispatch of requests and answers, Daemon/Requests the
-- requests about MTB-USB and modules, Daemon/Subscriptions those about subscriptions, Daemon/Outputs
-- the reset of a client's outputs, Daemon/Activation the activation of modules and the signals of
-- MTB-USB, Daemon/Files the configuration files and the connection (Daemon/Files/Reloading: modules that are
-- saved and loaded again), Daemon/Start the start of the program,
-- Daemon/Lines new clients and their lines. A module is what the virtual
-- functions of MtbModule are (Daemon/Modules); Classes fills this interface, and Classes/Laws what the
-- daemon relies on when it resets outputs. A module sees which other modules are active as it was
-- before the request. Files, serial ports, peers of sockets and texts of numbers are the record
-- `Surroundings`; addresses of hosts (QHostAddress) are compared as their texts.
--
-- Loops: the reading loop runs on the length of the buffer as fuel, since every frame that is taken
-- out makes the buffer shorter. The loops that close the port run on fuel given from outside, and are `none` when it is used
-- up, because a callback may send for ever. The other loops are over lists, or over the 256 addresses.
--
-- Assumptions: the clock stands still inside a handler; QSerialPort is still open while it tells that
-- it is about to close; char is signed. Bytes are numbers, and are not assumed to be below 256 where
-- that does not matter. A firmware's blocks are numbers without a bound, and their address is cut to
-- 16 bits as in the code.
--
-- Not modelled: dvRepr of universal modules, which computes with floats (a parameter, as are
-- QString::toInt, QString::number and products with a fraction of JSON), the texts of errors in answers,
-- the configuration of the log and its times, the handler of the console and the search for devices on Windows,
-- lib/termcolor.h, which is not the project's own, and the Python programs in test, utils and examples.
pub mod Base
pub mod Common
pub mod Cmd
pub mod Usb
pub mod Firmware
pub mod Uni
pub mod Json
pub mod Server
pub mod Led
pub mod Unis
pub mod Rc
pub mod Utils
pub mod Logging
pub mod Module
pub mod Classes
pub mod Daemon
pub mod Tests
