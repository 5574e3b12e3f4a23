-- ===== src/Lib.antt =====
-- The firmware of the SM13 remote terminal unit (RTU), com/ of the repository: a microcontroller that
-- takes commands from an operator station (HMI) over TCP and passes them to the tasks of three
-- devices, two motors (arm and pole) and a lift.
--
-- How the parts interact. `tcp_thread` (com/src/rtu_com_hmi.c) accepts one HMI at a time and makes the
-- queues and tasks of the devices. Each packet is read as a struct and checked by
-- `NetValuesReceivedFromHMI` (com/src/net_values.c); an accepted command goes to `TaskTriggerMsg`
-- (com/src/task_trigger.c), which compares its mode and its control flag with those of the command
-- before and posts messages to the device queues; `NetValuesToSendFromRTU` (com/src/net_values.c)
-- prints the status of the devices into the reply. At the end of a connection `prvEmergencyStop`
-- posts a stop to every device. Below, ResetISR (com/src/cr_startup_lpc43xx.c) fills the memory and
-- calls `main` (com/src/main.c), whose task `vStackIpSetup` (com/src/lwip_init.c) starts lwIP, the
-- Ethernet driver and the thread of the session, and then watches the cable. lwIP, which stands
-- between the driver and the session, is not modelled.
--
-- Files:
--   Common      names, lists, C strings and `strncmp`
--   Motion      com/inc/mot_pap.h, lift.h: messages and status structs
--   Hmi         com/inc/rtu_com_hmi.h: frame, command, error identifiers
--   Frame       NetValuesReceivedFromHMI: one function for each of its statements; the children hold
--               the packet's layout and the frame that stands for a command
--   Kernel      the calls of FreeRTOS and lwIP as a trace, with what they answer as a parameter
--   Trigger     TaskTriggerMsg; Trigger/Orders says what a change of the command is for
--   Device      com/src/arm.c, pole.c, lift.c
--   Report      NetValuesToSendFromRTU; Report/Reading is a client that reads the reply
--   Session     tcp_thread, prvEmergencyStop; Session/Keeps is what serving a connection keeps,
--               Session/Conversation a connection with one command after the other
--   Dispatch    the tasks of arm.c, pole.c and lift.c beside tcp_thread, as steps: the queues, the
--               global handles, and who waits for what; Dispatch/Operator goes from the packets of a
--               connection to the device tasks
--   Link        com/src/lwip_init.c: vStackIpSetup; Link/Setup is what comes before its endless loop
--               over the PHY
--   Debug       com/src/debug.c and the test of lDebug in com/inc/debug.h
--   Startup     com/src/cr_startup_lpc43xx.c: data_init, bss_init and the section loops of ResetISR;
--               Startup/Isr is ResetISR whole with SystemInit of com/src/sysinit.c, Startup/Vectors
--               the vector table and the weak handlers
--   Board       com/src/main.c, dout.c: the calls up to the scheduler, msDelay
--   Emac        lwip/src/arch/lpc18xx_43xx_emac.c, the Ethernet driver: Emac/Tx and Emac/Rx are its two
--               rings, Emac/Mac the set-up with its tasks and the interrupt, Emac/Driver the whole
--               driver with the loops of its tasks, the handler and the semaphores
--   SysArch     lwip/src/arch/sys_arch_freertos.c: mailboxes, semaphores and times for lwIP
--   Tests       the theorems at concrete inputs, and runs
--
-- How it is modelled. A function that writes through a pointer takes the old value and returns the new
-- one. Code that calls the system runs in the monad `Kernel.M`: a run goes on with a result and the
-- trace of its calls, the last call first, or ends in a fault, which is a write through a null
-- pointer. What `pvPortMalloc` and `netconn_write` return is a function of the calls so far (`Env`);
-- `plenty` is a heap that is never exhausted, with blocks of any contents. The packets, the errors
-- of the network and the contents of local variables that are not initialised are inputs. Static
-- variables are fields of `Session`, and the flag byte of `TaskTriggerMsg` is passed in and out. A
-- message is shown by its contents in the call that posts its pointer, since nothing writes to it
-- afterwards. Numbers are natural numbers with the wrap of their C type written out; a `char` array
-- is the list of its bytes.
--
-- The driver shares an array of descriptors with the DMA, whose steps may come at any time: a run is a
-- sequence of steps of the driver and of the DMA. An operation of the driver is one step, since the
-- transmitter holds TXLockMutex and the receiver is one task. Registers and control words are records
-- of the bits that the code uses, since the values of the bits are in the chip's headers. A call of the
-- chip's library is an entry of a list of calls. A copy of a chain that is longer than its pbuf is an
-- entry too, with the bytes written and the room; what lies behind the room is not modelled. In
-- Emac/Driver the same operations are taken by the
-- two tasks at their places behind the semaphores, and the interrupt handler is two steps, since the
-- DMA may raise a bit between its read and its write of DMA_STAT.
--
-- A device's tasks take the calls of `tcp_thread`, which are those of its trace, one by one: the thread
-- makes its next call when none of them can go on, since their priority is higher. An older task keeps
-- waiting for the queue that it last read from the handle.
--
-- Bounds. Loops over packets and connections are recursions over the lists that drive them, and the
-- digits of a number take one round each. The loops of the reset code run on fuel: one more than the
-- words of a section for data_init and bss_init, one more than the entries of the table for
-- ResetISR, and with that fuel they are shown to end. The loops of the driver over its rings run on
-- 9, one more than the descriptors, and are shown to end, the loop of the receive task where there
-- is memory. The waits (`waits` of Emac/Tx, `none` of Link/Setup and of the mutex) are results,
-- since they end only by what others do.
--
-- Not modelled: FreeRTOS (freertos/) and lwIP (lwip/ but for the files of lwip/src/arch named
-- above), which are other projects' libraries; sys_thread_new, the deletions and the critical
-- sections of the port, which pass a call on; the statistics of lwIP; the log output of `lDebug` in
-- the session and the trigger; the hooks of com/src/main.c for assertions and stack overflow, which
-- are endless loops. Of the scheduler, that a task of a higher priority runs first is used for the
-- device tasks and `tcp_thread`, and that no task runs inside the interrupt handler; otherwise the
-- steps of tasks come in any order. `configASSERT` is left undefined in com/inc/FreeRTOSConfig.h, so
-- the assertions of FreeRTOS are empty.
pub mod Common
pub mod Motion
pub mod Hmi
pub mod Frame
pub mod Kernel
pub mod Trigger
pub mod Device
pub mod Dispatch
pub mod Report
pub mod Link
pub mod Debug
pub mod Startup
pub mod Emac
pub mod SysArch
pub mod Board
pub mod Session
mod Tests
