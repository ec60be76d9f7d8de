-- ===== src/Lib.antt =====
-- NetGitaroo: network play for Gitaroo Man on the PlayStation 2.
--
-- The network code of src/networking.c is a small IPv4 stack without threads of its own. netman hands
-- it received frames (EnQRxPacket) and takes frames to send from its transmit queue (NextTxPacket,
-- AfterTxPacket, DeQTxPacket); the game calls it once per video frame (process_dhcp,
-- send_game_state) and when it prints (LogStr). Each received frame goes through HandleArp or
-- HandleIp to the DHCP client, the log or the game protocol of src/game_net.c.
--
-- Packets: struct packet_buffer in an explicit memory, and the globals that hold the lists.
-- Buffers: the routines on them. Buffers.Tx and Buffers.Rx are the code; Buffers.Owned says who owns
-- each buffer, and the other children show what each routine does to the owners. A loop along a list
-- of transmit buffers is given 17 tests of its condition: there are 16 transmit buffers, and with
-- one owner each no list is longer.
-- Bytes: loads and stores of the little-endian EE, the address types and their macros.
-- Checksum: CalcHeaderChecksum and FinalizeUdpChecksum. Packet: MakeIpPacket and MakeUdpPacket.
-- Net: the globals of the network code, and what it takes from outside: readings of the clock and of
-- rand, and the value of an uninitialised local.
-- Dhcp: the DHCP client. Its option loop is given 251 tests: a round takes two bytes of 500.
-- GameNet: the game protocol. Logging: src/logging.c; LogStr has no result where its copy would leave
-- the data of its buffer, whose size is Env's frame_size. Ip: HandleIp, HandleArp and EnQRxPacket.
-- IpVisual: the address and port that the menu shows digit by digit (ip_visual_t of src/multi_menu.c).
-- Menu: the multiplayer menu of src/multi_menu.c; the game's own menu handler is an argument.
-- Hooks: the hooks of src/game_net.c around the game's functions, which are arguments. The loop that
-- waits for the remote player sleeps until another thread changes the globals, so what happens in a
-- sleep is an argument too, and the number of sleeps is bounded by one.
-- Owners: the buffers over runs of the entry points, from the set-up of InitConnection's lists on, and the network code as the
-- stack that netman receives into (Owners.NetStack).
-- Netman: the two rings between the EE and the IOP, and the IOP's interface table.
-- Netman.TxRing is the ring for frames to send (netman/src/rpc_client.c and
-- netman_iop/src/rpc_server.c); a wait for a slot is an operation without a result.
-- Netman.RxRing is the ring for received frames (netman_iop/src/rpc_client.c and
-- netman/src/rpc_server.c): each side's copy of the 24 descriptors, the transfers that are on their way
-- in each direction, in order, the grouping of frames, and the thread that hands each frame to the stack and
-- replaces its buffer; a turn ends with the thread's call of EnQRxPacket. A frame is named by a number. Whether sceSifSetDma takes a request is an argument
-- where the code does not ask again. The stack is the record Netman.RxStack of callbacks and laws, which
-- Owners.NetStack fills with src/networking.c and its 25 buffers. Each operation runs to its end; the thread's
-- turns, a test that finds no frame or a frame handed over, are single steps, and so is its call of
-- SleepThread, so that an interrupt can come between the test and the sleep. What the DMA controllers and
-- the kernel's SleepThread and iWakeupThread do is written out as they are documented.
-- Netman.Interfaces is netman_iop/src/netman.c: the table of interfaces, the main interface, and what the
-- stack is told of the link. A string and an event flag are numbers, the size of the table is an
-- argument, and so is what a read through NULL gives.
-- Netman.Manager is netman/src/netman.c: the registration of the stack, with what the kernel and the RPC
-- calls return as arguments.
-- Clock: src/time.c. The timer's own steps, a tick and the overflow flag, are as they are documented; the
-- range of ps2_clock_t is an argument.
-- Util: src/util.c, with a memory of RPC queues whose walks are given a number of tests, and CreateHook of src/hook.c.
-- Util.Hooked runs what CreateHook writes by the few instructions that it needs, as MIPS documents them.
-- State: the entry points as steps of a run, and its invariant.
-- Examples: the theorems at concrete inputs.
--
-- Numbers are native naturals; the fixed widths of C are written out. A frame's bytes are a function
-- from offsets. Floats are bit patterns, with the FPU's operations as arguments. A handler reads the
-- frame as it was delivered. The semaphore around the DHCP client is left out, malloc is taken to
-- succeed, and the kernel, the RPC calls and handlers of netman and the threads' set-up are not modelled.
pub mod Buffers
pub mod Bytes
pub mod Checksum
pub mod Clock
pub mod Common
pub mod Dhcp
pub mod Examples
pub mod GameNet
pub mod Hooks
pub mod Ip
pub mod IpVisual
pub mod Logging
pub mod Menu
pub mod Net
pub mod Netman
pub mod Owners
pub mod Packet
pub mod Packets
pub mod State
pub mod Util
