-- ===== src/Lib.antt =====
-- CROS-RT: real-time scheduling of ROS 2 messages in the Linux kernel.
--
-- Messages arrive in the network driver, whose message selector looks at their UDP port: it queues
-- those for port 7778 for the non-RT handlers; sorting the others into the priority queues stands
-- in a comment of the source, so the queues are modelled with what is in them. The handlers,
-- kernel threads, call back into the driver through function pointers of NAPI instance 257: the RT
-- handler takes the messages of the highest priority and adopts that priority itself, and the
-- non-RT handlers serve the other messages in the background or within a share of a period. System
-- calls let ROS 2 say which port, and which thread, has which priority. Below this stand the
-- kernel's NAPI polling, its softirqs and its scheduler, which CROS-RT patches in places. All
-- paths are below Linux_for_Tegra/source/kernel/kernel-jammy-src:
--
-- Driver models drivers/net/ethernet/realtek/r8169_main.c and r8169.h. Ports is the table of port
-- priorities (set_port_priority, remove_port_priority, get_port_priority,
-- get_next_highest_priority), Pq the priority queues (priority_queue_*), RtPoll rt_poll, NonRt
-- non_rt_poll and non_rt_pl_poll, Rx rtl_rx with the selector, Tx rtl8169_start_xmit and rtl_tx
-- (Race both at once), Sending these with timeouts and resets over time, Rings rtl_open and
-- rtl8169_close with the memory of the rings, Reset the reset of the rings (rtl_task,
-- rtl_reset_work), Interrupt rtl8169_interrupt and the end of rtl8169_poll, Poll the whole of it,
-- Device the state behind the function pointers that rtl_init_one sets. SkbQueue is the interface
-- of struct sk_buff_head, which the driver only calls.
--
-- Framework models ros2_framework. Syscalls is priority_identifier.c, RtHandler rt_handler.c
-- (kmond and krtd by rounds, Init its loading), NonRt the threads of non_rt_bg.c and non_rt_pl.c
-- by rounds (Init their loading), NonRtPl the sleeping time of the latter, Threads what loading and
-- unloading do with a kernel thread.
--
-- Net models net/core/dev.c and include/linux/netdevice.h. Glue is what leads from a handler or a
-- system call to the driver, Ids the numbers of NAPI instances (netif_napi_add, __netif_napi_del,
-- and who has number 257), Tids the priorities of threads, Instance the scheduling of one NAPI
-- instance (Steps its interleavings, Bits its state word as a number), RxAction net_rx_action.
--
-- Softirq models kernel/softirq.c, __do_softirq with the deferral of NET_RX to ksoftirqd.
--
-- Sched models kernel/sched/core.c. Task is a task with its priorities and its wake-up,
-- Setscheduler __sched_setscheduler and its callers, Calls the system calls that set and read a
-- task's policy and priority on a table of tasks (Abi is what they and a process pass each other),
-- Priority the nice value, priorities that are lent, and what a child gets of its parent.
--
-- System puts the receive path together: one state with the driver, its ring and the threads krtd
-- and knonrtd, and a step for each event, so that a run is a list of events in any order. Safe
-- names what holds of it and what an event may do, Steps and Others look at the events one by one,
-- Laws, Order and Wakeups at runs. There krtd_on stays and the pointer knonrtd of r8169_main.c leads
-- to its thread; Switched adds writes to krtd_on and the pointer that they set (Driver/Rx/Pointer),
-- which is NULL where the thread is not found.
--
-- Buckets is the kernel's hash table as its users see it, Base what all share, Tests concrete
-- inputs.
--
-- State is a record, an operation a function of it; a loop that need not end is recursion on fuel,
-- with none for a loop that has not ended, and the theorems say how much fuel is enough (one more
-- than the packets that wait, or than the descriptors in flight). The value fault is an access
-- outside an array or through a pointer with nothing behind it, and an int is an integer, with
-- overflow as a fault; the counters of the rings are numbers below 2 ^ 32 that wrap. Calls into
-- code elsewhere are parameters: the packet queues with their laws, napi_gro_receive, memory
-- allocation, DMA mapping, the clock, kthread_run and kthread_stop, and in the scheduler the
-- answers of capabilities, limits, security and bandwidth.
--
-- Not modelled: locks and memory barriers, run queues and the choice of a CPU, the utilisation
-- clamps, threaded and busy polling, the GRO layer, the setup of the chip, the user-space parts of
-- ROS 2. A step of one thread is atomic here; where the code runs concurrently by design, in NAPI
-- and between the background server's poll and its sleep, the steps come in any order.
pub mod Base
pub mod Buckets
pub mod Driver
pub mod Framework
pub mod Sched
pub mod Net
pub mod Softirq
pub mod System
pub mod Tests
