-- ===== src/Lib.antt =====
-- The firmware that lets a 3270 terminal play text adventures: the Z-machine interpreter,
-- Firmware/main/zops.c, and the line to the terminal, from the bits on the wire to the session, in
-- LowLevel.cpp, crc.cpp, PacketBuilder.h, PacketParser.cpp and Network.cpp of Firmware/main.
--
-- The interpreter runs a story file: it decodes an instruction at the PC, executes it on game
-- memory, variables, objects and two stacks, and goes on. It prints through Screen.cpp, asks it for
-- input, and saves and restores games as Quetzal files.
--
-- The line works in bytes and bits: `MessageTask` asks `NetworkState` for a packet, frames it and
-- sends it; the bits of the terminal come to `RecvCallback` one by one, which puts packets into a
-- ring; `MessageTask` takes them, parses them and gives them back to `NetworkState`.
--
-- The parts, and the files that model them:
-- - Base: native numbers, lists as C arrays, C `int`s, bits. Effects: commands over the state, which
--   end with a value or stop the program.
-- - Machine: the structs and static variables. Stack: `stackInit` to `stackPeek`.
-- - Memory: `ReadMemory`, `SetMemory`, the DYNAMIC macro, `allocateDynamic`, words of two bytes.
-- - Variables: `readVariable`, `setVariable` and the indirect accesses.
-- - Objects: `getObject`, the links, `getProperty`. Tree: `removeObject`, `addChild`.
-- - Routine: `callRoutine`, `returnRoutine`, `doBranch`.
-- - Windows: the `io` functions. Text: `printText` and `printToStream`. Status: `updateStatus`.
-- - Decode: the four instruction forms, the tables of stores and branches.
-- - Dictionary: `encodeToken` and `getDictionaryAddress`. Lexer: `lexicalAnalysis`.
-- - SaveStream: the buffered stream. Save: `saveState`. Restore: `restoreState`. SaveGame: the save
--   and restore instructions.
-- - Operands, Op0, Op1, Op2, OpVar, OpExt: the five `process...Instruction` functions, a definition
--   for each case.
-- - Execute: `executeInstruction` and the main loop. Boot: the rest of `zopsMain`.
-- - Crc: `BuildCRCLookup` and `ValidatePacket`. BitStream: `CBitStream`. Framing: `CalculateCRC`,
--   `ZeroBitAndFlagInsertion` and the part of `MessageTask` that calls them. Receiver: `RecvCallback`
--   and the part of `MessageTask` that takes packets from the ring.
-- - SnaStream: the streams and packets of PacketBuilder.h. ParsedPacket: the types of 3270.h and the
--   class of PacketParser.h. PacketParser: `Parse`. Network: `GenerateNewPackets` and
--   `ProcessPacket`, with the screen behind the interface `ScreenOps`.
-- - CharTables: 3270.cpp. ScreenData: the bytes of a line of text. ScreenData/Terminal: what a
--   terminal makes of the orders that Screen.cpp uses, as 3270 terminals document them.
--   Screen: printing, scrolling and reading of Screen.cpp. Screen/Reply: what a terminal's reply does.
--   Screen/Serialize: the packets of a screen or of a raw stream.
-- - Tn3270: the client of TN3270.cpp behind its connection.
-- - Tests: runs on a small story and a small line, and the theorems at concrete inputs.
--
-- How the code corresponds. A C function is the function of the same name in snake case, on an
-- explicit `Machine`. A static variable is a field. `char` is unsigned, as on the ESP32's compiler.
-- Undefined behaviour of C stops with `undefined`: an access outside an array, a read of a local
-- that was not written, a bad shift or division. `exit` stops with a reason of its own. A debug
-- ASSERT, which only prints, has no counterpart.
--
-- In the C++ files a method is the function of its name in snake case on the object's record. A
-- `uint8_t`, `uint16_t` or `uint32_t` wraps where it is assigned; an access outside an array is
-- `none`. The receive queue of FreeRTOS is the list of what is sent to it, in order; that the queue
-- can be full is not modelled. Debug output is left out.
--
-- Code outside zops.c: the calls of Screen.cpp, `esp_random` and `fopen` are recorded in `Console`,
-- which also holds the answers still to come; without an answer the program stops with `waiting`.
-- `fread` delivers as many bytes as it can up to the size asked for, and `fwrite` adds to the file.
-- `malloc` is a parameter.
--
-- Bounds and fuel. A loop that C ends by a condition takes fuel and stops with `out_of_fuel` without
-- it: printing of text 2000000 rounds, the loop over siblings 65536 rounds, the number of object
-- numbers, `getProperty` the size of the memory, reading of a chunk its bytes, `split` the length of
-- the input. The main loop has no end of its own and takes the number of instructions to run.
--
-- The loops over a `CBitStream` take the number of its bits as fuel, which each round uses up one of.
--
-- `Print` calls itself for the [MORE] prompt: the model takes the depth of these calls, and 2 is enough,
-- since the prompt fits in its line. What the other task does to the screen while one waits for it in
-- `ReadInput` is a parameter, `wait`. `SerializeScreen3270` starts behind its wait for `bSuspended`.
--
-- The TN3270 client gets what recv, send, select and the waits of the screen will give as lists or as
-- a function; its main loop takes the number of rounds.
--
-- Not modelled: the connecting of TN3270.cpp; the tasks, GPIO, SPI and clock of LowLevel.cpp and
-- the printing of packets, which are input and output; the network services (SSH.cpp, Wikipedia.cpp,
-- FrontEnd.cpp, main.cpp), glue over sockets; libssh2, another project's library;
-- MAME/SoftDongle/zops.c, a near copy of the modelled file.
pub mod Base
pub mod Stack
pub mod Machine
pub mod Effects
pub mod Memory
pub mod Variables
pub mod Objects
pub mod Tree
pub mod Routine
pub mod Windows
pub mod Text
pub mod Decode
pub mod Dictionary
pub mod Lexer
pub mod Status
pub mod SaveStream
pub mod Save
pub mod Restore
pub mod SaveGame
pub mod Operands
pub mod Op0
pub mod Op1
pub mod Op2
pub mod OpExt
pub mod OpVar
pub mod Execute
pub mod Boot
pub mod Crc
pub mod BitStream
pub mod Framing
pub mod Receiver
pub mod SnaStream
pub mod ParsedPacket
pub mod PacketParser
pub mod Network
pub mod CharTables
pub mod ScreenData
pub mod Screen
pub mod Tn3270
pub mod Tests
