-- ===== src/Lib.antt =====
-- SerialDFS, the DOS side: a network redirector that serves a drive over a serial line.
--
-- DOS calls the resident program through INT 2Fh (dos/src/serdfs.c, `inthandler`), which picks out
-- the redirector calls for its drives and runs `process2f`. A handler of `process2f` packs a request
-- and calls `serial_rpc` (dos/src/serrpc.c), which wraps it in a frame (dos/src/serframe.c), sends it
-- through the polling UART driver (dos/src/seruart.c), waits for an answer and tries again if none
-- comes. The answer is unpacked into the structures of DOS (dos/src/dosstruc.h) that the call is for.
--
-- The files:
--   Base: lists, bytes and words, exclusive or and masks, which the others share.
--   Crc: `crc_init`, `crc16_update`, `crc16_block` of dos/src/serframe.c. Crc/Reference has the
--     bit-serial register that they are compared with, defined without them, Crc/Linear and Crc/Detect their algebra.
--   Frame: `frame_encode` and `frame_decode` of dos/src/serframe.c.
--   Link: what `serial_rpc` uses of the driver, as an interface.
--   Command: the command IDs of dos/src/serframe.h.
--   Rpc: `serial_rpc`, one function for the body of its loop and one for each part of it. The
--     counters of `glob_data` are those of the resident build. Rpc/Log says what goes out over the
--     link, for any record of it that the machine keeps.
--   Uart: dos/src/seruart.c over port operations and a tick counter, which the BIOS
--     sets back to 0 at midnight (Uart/Clock).
--   Redirector: dos/src/serdfs.c from `copybytes` to `inthandler`. Names has the helpers, State the
--     structures, globals and the call of `serial_rpc`, Paths the handlers that send a path, Files
--     those on an open file, Open those that open one, Find the directory search, Dispatch
--     `process2f` and `inthandler`.
--   Install: `parseargv` of dos/src/serdfs.c, and of its installer the loops over the drives
--     (Drives), what a command line maps (Mapped), the search for a multiplex number (Multiplex), the patching of the handlers (Patch)
--     and the texts (Text).
--   Tools: the programs of dos/tools: Serdir, Sertype, Sercopy, Serren and Serdel over `serial_rpc`,
--     Serping over the driver. A program's output is a list of messages, one for each `printf`.
--   Kept, below State, Paths, Files, Open, Find and Dispatch, has what each handler keeps, for any
--     relation between the states before and after a remote call; Dispatch/Resident and
--     Dispatch/Fits use it.
--   StatusBar: the status bar of dos/src/serdfs.c, `vga_putch` to `int28h_handler`.
--   Tests: inputs on which the theorems apply.
--
-- How the code is read: integers are natural numbers with their wrap-around written out, a buffer is
-- the list of its bytes, an object behind a far pointer is looked up by the pointer, and a handler
-- takes the state of the program to the next. What a handler's uninitialised local holds is an
-- argument `undef`. `serial_rpc` is an argument of the handlers (`Call`), over a state of its own, so
-- that a theorem can say of the server what it relies on.
--
-- Loops: `serial_rpc` makes ten rounds. The polling loops have fuel: one poll more than the clock
-- allows is enough. The loop of AL_READFIL has CX as its fuel and that of AL_WRITEFIL one more, since
-- each round that goes on moves at least a byte. The loop of AL_FINDFIRST and AL_FINDNEXT goes on for
-- as long as the server has batches, so its fuel is an argument. The loops of SERTYPE, SERCOPY and SERDIR have
-- fuel as an argument too: one round for each part of the file and one more is enough for the first
-- two, and two for SERDIR.
--
-- Not modelled: the calls of DOS in the installer's `main`, the stack switch of `inthandler` and the jumps
-- that chain to the handlers before it, which are assembly;
-- crcfuzz.c and i2fexer.c of dos/tools, which belong to the test rig; the messages; the daemon of linux, of which the theorems say by
-- hypotheses what it answers; vendor, a copy of another project.
pub mod Base
pub mod Crc
pub mod Frame
pub mod Link
pub mod Command
pub mod Rpc
pub mod Uart
pub mod Redirector
pub mod Install
pub mod Tools
pub mod StatusBar
pub mod Tests
