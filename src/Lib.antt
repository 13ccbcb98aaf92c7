-- ===== src/Lib.antt =====
-- Verification library of msxnet (sw/spyvspy), the server program for MSX classroom networks. The
-- program talks to workstations over one serial line. It speaks two protocols: packets, by which a
-- teacher's machine pings workstations and sends them commands and files, and the Spy protocol, by which
-- a workstation asks the server for disk services, one request and one response at a time.
--
-- The parts, from the line upwards, and the files that model them:
--   Wire (with Cmd, Escape, Block): sw/spyvspy/commands.h, and in sw/spyvspy/sendpacket.cpp the escape
--     code and the checksummed blocks. A method that writes is the list of bytes that it writes.
--   Serial (with Wait): sw/spyvspy/serial.cpp and serial.h. The port is what was sent so far and a list
--     of what each select reports; waitRx is a loop over a handler on the listener's state. Serial/Setup has
--     the constructor and Setup, with the settings that it makes.
--   Packet, Sender: sw/spyvspy/sendpacket.h and sendpacket.cpp. SendPacket, the receive handler with its
--     buffer of 1024 bytes, CheckPacket and GetRxData.
--   Util: Util::dosname of sw/spyvspy/util.cpp, by its parts; Util/Shape describes its result.
--   Fcb, Dirent: the structures FCB and DIRENT of sw/spyvspy/spydata.h, as records and as memory.
--   Globor: the directory search of sw/spyvspy/dosglob.h.
--   Request: SpyRequest of sw/spyvspy/spy.h; Request/Table has the codes of spydata.h and the patterns of
--     ReceiveRequest in sw/spyvspy/spy.cpp; Request/Message is the workstation's side of a request.
--   Response: SpyResponse of sw/spyvspy/spy.h, with SendByte, SendWord and SendChunk of spy.cpp.
--   Disk: the use that is made of the C library's files. The served directory is a function from names to
--     bytes; which names may be used, what a directory lists and the time of a file are parameters.
--     Disk/Names and Disk/Places have the lemmas on files by name and on bytes by place.
--   Bdos: NetBDOS of sw/spyvspy/spybdos.h. State has its fields and private helpers; Read, Write, Find and
--     Drive have the handlers; Exec is ExecFunc. Each takes the request and the world, and gives the
--     response and the next world. Bdos/Position to Bdos/Spares have the theorems about
--     them. Bdos/Suite is the test suite of the class.
--   Transport: SpyTransport of sw/spyvspy/spy.cpp; Serve: the loop of Spy::Serve there. Serve/Session is the
--     account of that loop, which knows nothing of the transport, its buffer and the pieces of data.
--   Ncopy: sw/spyvspy/ncopy.cpp.
--   BasicSend (with Files): sw/spyvspy/basicsend.h and basicsend.cpp.
--     BasicSend/Exchange is the line to a workstation that answers each packet.
--   Bootstrap: initData and the three phases of Bootstrap in sw/spyvspy/spy.cpp; Bootstrap/Remote is the
--     receive loop of sw/spyvspy/spy_bootstrap.asm, at the other end of the line.
--   Spy: the class Spy of sw/spyvspy/spy.h from its constructor on, with Bootstrap and Serve behind Setup.
--   Msxnet: main of sw/spyvspy/msxnet.cpp; Msxnet/Commands has the commands that open a port of their own,
--     and the constructor of BasicSender in sw/spyvspy/basicsend.h. Diags: sw/spyvspy/diags.c.
--   Tests: runs on concrete values.
-- A request is received by consume, passed to exec_func, and its response is sent by emit; serve_round calls
-- the three.
--
-- How effects are told. A run (Prelude/Outcome) is done with a value, exited where the program ends
-- itself, or fault where C++ leaves the behaviour undefined: a null or unset pointer that is followed, an
-- unset value that is sent, an int that overflows, an array that is left; or it is running still, where a
-- loop without an end of its own has used up its fuel. A handler's `->` updates on a shared object are
-- explicit records passed on. Integers of w bits are cut by u8, u16 and u32 where the C types cut them.
--
-- Loops. consume has a round for each token of the pattern, and one more; SendPacket's loop over master
-- data has a round more than there are bytes; the clients in Globor/Search and Bdos/Scan, and
-- the last test of Bdos/Suite, have the fuel that their theorems name. Running out of fuel is a value of its own, none, a fault or running.
-- The wait for the data of a request and pingPong may go on for ever: they have fuel as an argument, and
-- their theorems say how much of it is enough. Serve has no end, and is given by the number of its rounds.
--
-- What is taken of the C library and the host: a name ends at its first NUL; fopen and stat answer a null
-- name with an error, as the GNU library does; a file that can be opened can be removed and renamed, and no
-- other; fread stores what there is of an item that the file does not hold whole. CheckPacket and the message
-- behind it may look at places of the buffer that have not been filled, which is defined; their model is a
-- fault only behind the buffer's end. A number of a request that had no place among the eight would be lost in
-- the model, where C++ writes behind them; Request/Sound has the reason why there is none.
--
-- Not modelled: getopt and atoi, whose answers are parameters, with argv behind the option found, as what open
-- and tcflush do is; printing, but
-- for dump and dumpline (diags.c), the help text, and what the test suite of NetBDOS shows; the Z80 side but
-- for that receive loop, and the pauses between bytes. DPB of sw/spyvspy/spydata.h and zeroFCBFields of
-- spybdos.h are left out, since nothing uses them; destructors only free memory.
-- Failures of fread, fwrite, fseek, read and write on an open file or device are not modelled either.
pub mod Prelude
pub mod Wire
pub mod Serial
pub mod Transport
pub mod Serve
pub mod Spy
pub mod Bootstrap
pub mod BasicSend
pub mod Diags
pub mod Msxnet
pub mod Ncopy
pub mod Util
pub mod Fcb
pub mod Dirent
pub mod Globor
pub mod Request
pub mod Response
pub mod Disk
pub mod Bdos
pub mod Packet
pub mod Sender
pub mod Tests
