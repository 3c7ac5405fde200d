-- ===== src/Lib.antt =====
-- The firmware of a LoRaWAN irrigation node on Zephyr: a message framework (lib/framework) and the
-- application on it (app/src). Tasks own a queue each; a message is a buffer of a common pool, and a
-- queue holds pointers to buffers. A sender takes a buffer, fills it in and puts its pointer into the
-- queue of the receiver that is registered under an id, or frees it when that fails; the receiver
-- takes the pointer, runs the handler that its dispatcher names for the message's code, and frees the
-- buffer. The sensor task reads the flow count from the settings and posts it to the event task, which
-- passes it to the control task, which sends it by radio.
--
-- Files. Prelude: tests, lists and machine words that all share. Platform: what the code uses of
-- Zephyr's k_heap and k_msgq, and the build options, as a record of operations with their documented
-- laws, and a small platform that meets them (Platform/Model).
-- Framework/Types and World: the data types of include/framework/sys_core.h, msg_ids.h and
-- sys_msg_types.h and the state that the framework works on: registry, receivers, tasks and queues by
-- address, and the pool. Framework/BufferPool: lib/framework/buffer_pool.c, and its command in
-- buffer_shell.c (BufferPool/Shell); BufferPool/Parts: its critical sections one by one, and
-- BufferPool/Sums: what they do to the statistics. Framework/SysCore, Broadcast, Receiver and Timer:
-- lib/framework/sys_core.c. Framework/SysMsg: lib/framework/sys_msg.c.
-- Framework/Effect and Deliveries: the vocabulary of what a send may change, and of what code that
-- only sends does. Framework/Ownership: which queue or task owns a buffer, and the abstract view in
-- which a queue is a mailbox of messages (Ownership/Mail).
-- Framework/Threads: the senders, `msg_receiver` and the callback of a task's timer as programs, step by
-- step, so that threads can be interleaved. Threads/Calls: the programs. Threads/Running, Agreement and
-- Rounds: what they do alone. Threads/Safety: when a program keeps to the buffers that it holds.
-- Threads/Holding, Stepping, Interleaving, Uninterrupted and Races: any number of threads, one step at
-- a time. Threads/Books: the statistics while threads are inside the pool's functions.
-- Config/Hash and SysCfg: lib/framework/sys_cfg.c over an interface for NVS (a table that meets it is
-- Config/Model). Config/Shell: lib/framework/sys_shell.c. Config/Decimal: the C library's decimal
-- conversions. Config/DevNonce: the nonce of app/src/control_task.c.
-- Shtc3: app/src/shtc3.c. ExampleSensor: lib/custom_lib and drivers/sensor/examplesensor.
-- App/State, Downlink, Join, Uplink and Tasks: app/src/control_task.c. App/Sensor: app/src/sensor_task.c
-- and the flow counter of app/src/bsp.c. App/Event: app/src/event_task.c. App/Posting: the event
-- message that both of these send. App/Board: app/src/bsp.c. App/Adc: app/src/adc.c. App/Modbus:
-- app/src/modbus_rtu.c.
-- App/System: the program as a whole. System/Boot: app/src/main.c and the start of the control task.
-- System/Run: a run as a sequence of steps, each a task that receives one message, the
-- start of a thread, a command of the shell, or an interrupt.
-- System/Handlers: which function a handler's name stands for. System/Sends and RadioSends: what each
-- of them does to the queues. System/Fifo: what every run keeps. System/Hops and Pipeline: a flow count
-- on its way through the three tasks.
-- App/Threads: the handlers, the interval timers' callbacks, the flow pin's callback and `syscfg set` of
-- app/src and lib/framework/sys_shell.c, step by step. Threads/Running, Handling and Rounds: what they
-- do alone. Threads/Safety, Firmware and Uninterrupted: that they are safe, and their interleavings.
-- A C function has the same name here in lower case, takes the state last, and returns its status
-- first and the state last. Tests: concrete states and the theorems at them.
--
-- Conventions. A pointer is an address, 0 for NULL; an int is its bit pattern or, for a status, an
-- integer. The memory behind the heap maps the address of a buffer to the message in it. SYSCORE_ASSERT
-- expands to nothing in this build. The drivers of GPIO, ADC and Modbus are interfaces. The answers of
-- the radio, of the I2C bus and of a kernel timer are parameters, and so are the addresses of static
-- objects and the durations of the timers in ticks.
--
-- Fuel. `flush_loop`, `join_loop` and `send_loop` are loops without a bound in C and return none when
-- the fuel runs out: a queue of n messages needs n + 1, a join that succeeds at the attempt k + 1
-- needs k + 1, and sending needs seven more than the number of the attempt from which the radio no
-- longer answers -EAGAIN. The other loops are structural.
--
-- Steps and threads. In App/System a step is a whole handler or callback, and a run is a sequence of
-- them. In Framework/Threads and App/Threads a step is one critical section of buffer_pool.c (the heap's
-- call, the statistics, the flag of the first failure), one call on a queue or on a timer, one access to a message, or one access to a static variable or to the settings, and another thread or
-- an interrupt may run between any two; a thread waits where it asks an empty queue for a message and
-- may wait. A program looks the receivers up in the state in which its round starts: after the start of
-- the program they stay as they are. A function `f` has its program in `f_calls` or under a shorter
-- name with that ending. Not covered at this grain: the start of the program, broadcasts, and what the
-- settings do inside a call. What the radio answers, the remaining time of a timer and a time stamp may
-- differ from step to step; a callback in a message is a parameter that only sends, or a safe program.
--
-- Not modelled: the creation of threads, their priorities and the scheduler's choice, logging, sleeps, the
-- registration of commands with the shell, the assertion handlers, the battery conversion of
-- sensor_task.c (floating point without a caller), the data rate callback of control_task.c (it only
-- logs), and the keys of app/include/lorawan.h, which are handed to the radio as they are.
pub mod Prelude
pub mod Platform
pub mod Framework
pub mod Config
pub mod Shtc3
pub mod App
pub mod Tests
pub mod ExampleSensor
