-- ===== src/Lib.antt =====
-- A model of the servers and drivers of the FreeRTOS demos for CHERI-RISC-V, and what is shown of it.
--
-- The program: protocols/Common/FreeRTOS_TCP_server.c accepts clients and calls a work function for
-- each; protocols/FTP/FreeRTOS_FTP_server.c is the work function of an FTP client: it reads a line
-- from the control socket, looks it up in the table of protocols/FTP/FreeRTOS_FTP_commands.c, runs the
-- handler, and then serves the data connection of the transfer in progress. protocols/HTTP is the work
-- function of an HTTP client, whose requests read and write the memory of the board.
-- protocols/NTP/NTPDemo.c is a task that sets the clock from a time server. bsp/plic_driver.c is the
-- driver of the interrupt controller; bsp/bsp.c dispatches its interrupts, and bsp/iic.c, the driver of
-- the I2C bus, registers with it. The task of demo/cyberphys/main_besspin.c reads sensors over that bus,
-- resets it when readings fail, and sends CAN messages. bsp/syscalls.c makes files of FreeRTOS+FAT of
-- the file descriptors of the C library. demo/SimpleTCPEchoServer.c sends back what it receives, and
-- demo/TCPEchoClient_SingleTasks.c is a client of such a server, demo/SimpleUDPClientAndServer.c a pair
-- over UDP. bsp/uart16550.c is the driver of the serial port, bsp/htif.c that of a console of the host.
--
-- The files, and what they model:
--   Prelude            numbers, lists, C strings as lists of byte codes, signed results
--   Ftp/Commands       xFTPCommands and the reply texts
--   Ftp/World          struct xFTP_CLIENT; the calls of the libraries as events of a trace
--   Ftp/Path           xMakeAbsolute, xMakeRelative, the path arithmetic of prvChangeDir
--   Ftp/Parse          prvGetTransferType, prvParsePortData
--   Ftp/Transfer       prvSendReply, prvTransferCloseSocket, prvTransferCloseFile, prvStoreFileWork;
--                      prvTransferConnect, prvTransferStart, prvTransferCheck and vFTPClientDelete in
--                      Ftp/Transfer/Connection
--   Ftp/Files          prvStoreFilePrep; prvRetrieveFilePrep and prvRetrieveFileWork in Ftp/Files/Retrieving
--   Ftp/Listing        prvListSendPrep, prvListSendWork, prvGetFileInfoStat
--   Ftp/Dirs           prvChangeDir, prvRenameFrom, prvRenameTo, prvDeleteFile, prvSizeDateFile,
--                      prvMakeRemoveDir
--   Ftp/Process        prvProcessCommand, one function for each case; the commands on files and the switch
--                      are in Ftp/Process/Dispatch
--   Ftp/Work           xFTPClientWork
--   Ftp/Keeps, Ftp/Frame, Ftp/Invariant
--                      how an invariant of the handlers becomes one of xFTPClientWork
--   Ftp/Handles, Ftp/Login, Ftp/Retrieve, Ftp/Counted, Ftp/Confined, Ftp/Lines, Ftp/Numbers,
--   Ftp/Overwritten
--                      the properties, by what they are about
--   Ftp/Examples       a concrete session
--   Server             the clients of a server by their type, and prvRemoveSlash; FreeRTOS_TCPServerWork and
--                      prvReceiveNewClient are in Server/Cycle, what holds of the handles of all clients
--                      together in Server/Handles, of the sockets of HTTP clients in Server/Leaving
--   Server/Create      FreeRTOS_CreateTCPServer, strnew, FreeRTOS_TCPServerSignal
--   Plic               bsp/plic_driver.c: the interrupt controller, its enable bits (Plic/Enable), its
--                      handler table (Plic/Table) and PLIC_init (Plic/Reset)
--
--   Http/Commands      xWebCommands and webCodename
--   Http/World         struct xHTTP_CLIENT, the buffers of the server and the memory
--   Http/Numbers       getNextNumber and strtoll, addressToCharPtr
--   Http/PeekPoke      peekPokeHandler
--   Http/Work          prvSendReply, prvOpenURL, xHTTPClientWork
--   Http/Reading, Http/Memory, Http/Poke, Http/Buffers
--                      the properties: numbers, what is sent of the memory, what is written to it, and
--                      the sizes of buffers and messages
--   Bsp/Interrupts     external_interrupt_handler, and the stores of the PLIC driver one by one
--   Bsp/Dispatch       an enabled interrupt has a handler at each of these stores
--   Bsp/Iic            struct IicDriver and the calls that bsp/iic.c makes; its functions, iic_transmit,
--                      iic_receive, their handlers, iic_init, iic_stop, are in Bsp/Iic/Driver, the mutex
--                      in Bsp/Iic/Mutex, the results in Bsp/Iic/Errors, iic0_master_reset in
--                      Bsp/Iic/Reset
--   Bsp/Syscalls       bsp/syscalls.c: _open(), _close(), _write() of a build with FreeRTOS+FAT; _lseek(),
--                      _read(), _stat(), _fstat() are in Bsp/Syscalls/Access. What holds of its table of
--                      files is in Bsp/Syscalls/Table and Bsp/Syscalls/Calls, of the search for a name in
--                      Bsp/Syscalls/Names, of a call on an open file in Bsp/Syscalls/Going, of the calls
--                      that come between in Bsp/Syscalls/Kept, what a descriptor stands for in
--                      Bsp/Syscalls/Reuse, the full table in Bsp/Syscalls/Full
--   Bsp/Uart           bsp/uart16550.c: the serial port; what is written to it is in Bsp/Uart/Queued
--   Bsp/Htif           bsp/htif.c: the console over the words that are shared with the host; what holds of
--                      the characters from the host is in Bsp/Htif/Console
--   Echo/Server        demo/SimpleTCPEchoServer.c: the task of a connection; what it sends is in
--                      Echo/Server/Sending and Echo/Server/Partial, that it ends in Echo/Server/Ending
--   Echo/Client        demo/TCPEchoClient_SingleTasks.c: a request of the client; its connections and the
--                      check that it runs are in Echo/Client/Connection, what holds of the check in
--                      Echo/Client/Check, of a reply in Echo/Client/Reply
--   Udp                demo/SimpleUDPClientAndServer.c: the loops of the client and the server; who owns
--                      a buffer is in Udp/Buffers
--   Ntp                protocols/NTP/NTPDemo.c: vStartNTPTask, vDNS_callback, prvSwapFields,
--                      prvNTPPacketInit, prvReadTime, the loop of prvNTPTask; what holds of all runs is
--                      in Ntp/Safety, the time and an exchange in Ntp/Time
--   Cyberphys          demo/cyberphys/main_besspin.c: the scaling of readings (Cyberphys/Scaling), the
--                      loop of prvSensorTask (Cyberphys/Sensor), process_j1939 and the loop of
--                      prvCanRxTask (Cyberphys/CanRx), the network event hook and
--                      prvIPRestartHandlerTask (Cyberphys/Network)
--
-- How the program is modelled: a function of the server is a function of the libraries and the state,
-- the state being the client and the trace of the calls made so far, the newest first. The libraries
-- (FreeRTOS+TCP, FreeRTOS+FAT, the kernel, the driver of Xilinx, the CAN library) are not part of the
-- repository: they are the parameter Env of each part, which says what each call answers, given all the
-- calls before it. What a theorem assumes of the answers stands among its hypotheses. The HTTP server
-- keeps its buffers as lists of bytes, and a request's memory apart from its own variables. Interrupts
-- come between the stores of a task: a step relation, and lists of callbacks while a task waits. An
-- assertion that fails is the result none of the I2C driver.
--
-- Bounds and fuel: the loop of prvRetrieveFileWork runs on uxBytesLeft + 1 rounds, since each round
-- that goes on sends a part of the file; the loops of prvListSendWork run on 65536 rounds, more than
-- a FAT directory has entries. Numbers of 32 bits wrap around where the source computes with them.
--
-- Not modelled: logging; the configurations that the repository does not use (zero-copy transmission,
-- aligned writes, user hooks, the callbacks of the NTP client); the bounds of
-- capabilities; registration of a NULL handler, and an interrupt between the read and the write of a
-- word of enable bits, which no handler of the repository writes; start-up code, the end of a run by htif_poweroff and the printing task of the car
-- demo; the libraries and the other programs of the repository.
pub mod Prelude
pub mod Bsp
pub mod Cyberphys
pub mod Echo
pub mod Ftp
pub mod Http
pub mod Ntp
pub mod Plic
pub mod Server
pub mod Udp
