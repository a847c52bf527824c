-- ===== src/Lib.antt =====
-- HAKit, the home automation kit: its utilities and its classes of objects.
--
-- HAKit runs tiles of objects. An object belongs to a class; its pads are joined by nets, and a value
-- that an object puts on an output pad reaches the input handlers of the others. The classes lie on
-- core/ (objects, properties, buffers, traces, options and the network protocols) and on
-- os/linux/ (the event loop with its timers).
--
-- Base holds what all parts share: lists, integers and texts over the native numbers. A text is the
-- list of its bytes without the NUL character at its end.
--
-- Core:
--   Core/Buf (core/buf.c): `buf_t` is the record Buf. An operation that may write outside the storage
--     returns an Option, none when it does; the number it returns is the C function's. `realloc` is the
--     parameter `alloc`, which says of each size whether it is served. `buf_set` is set_bytes.
--   Core/Trace (core/trace.c): the ring of points. The present time is an argument. The loop of
--     `hk_trace_dump` runs on fuel, the depth of the ring, which bounds the rounds.
--   Core/StrArgv (core/str_argv.c): the argument splitter. Whether `char` is signed is a parameter. The
--     outer loop runs on the length of the line as fuel: each round takes a byte at least.
--   Core/Command (core/command.c): lines out of chunks. The calls of the handler are a list of argument
--     lists. The loop runs on the length of the chunk as fuel: each round takes a byte at least.
--   Core/Tile (core/mod.c): the pads, nets and objects of a tile, in stores whose places stand for
--     pointers. `join` is what `hk_obj_net` does with the two pads it found; Connections, Nets and Joins
--     lead to its effect on the nets. Update is the propagation of values: `run` goes from pad to net to
--     input handler and on, on fuel for the depth of the calls; Locks and Returns bound that depth by the
--     locks, Broadcast is about handlers that update nothing. Start is the creation of objects and the
--     start of a tile.
--   Core/ModLoad (core/mod_load.c): the loader of a tile, from the chunks of its file. A loop over the lines
--     of a chunk runs on the length of the chunk as fuel: each line takes a byte at least.
--   Core/Endpoint (core/endpoint.c): the tables of sinks and sources. Names is the lookup by name,
--     Registry, Taken and Register the registration, Update the updates with their locks; Delivery and
--     Delivered lead to what an update leaves. The functions that do the same for both tables are
--     written once, on lists of Ep.
--   Core/Hkcp (core/hkcp.c): the nodes that the program sends its sources to. Receive is what a node sends
--     back; its loop runs on the length of the chunk as fuel: each line takes a byte at least. Clients is
--     the server with its connections, Commands (core/hkcp_cmd.c) the commands. Timers, Steps, Sound,
--     Added and Reach are about the timers of the nodes; a step is an event from outside. Chunks, Retries,
--     Attached, Watchers and Setting are about receiving, giving up, sending and setting.
--   Core/Advertise (core/advertise.c): the packets by which programs find each other.
--   Core/Options (core/options.c): the command line, on the number of its arguments as fuel: each option
--     takes one at least. Config is the option files, on the length of a file as fuel. Written,
--     OptionLine and Directory are about what is read.
--   Core/Comm (core/comm.c): the state that puts endpoints, protocols and commands together.
--   Core/WsAuth (core/ws_auth.c): the users of the web server, on the length of their file as fuel: each
--     line takes a byte at least. Access is about who gets in.
--   Core/Prop (core/prop.c, core/tab.c): the properties of an object, an association list.
--
-- Classes:
--   Classes/History (classes/history/history.c, hakit-history.c and main.c): Value is the coding of
--     integers, Writer the log of an object, Reader the program that prints a file, Object the class.
--     The calls on files and timers are values of the type Effect. The reader runs on the length of the
--     file as fuel: each entry takes a byte at least. Entries, Consumes, Selection and Feed lead to RoundTrip; OneBucket is about
--     the change of buckets.
--   Classes/And, Or and Not (classes/and/main.c and so on): the gates; their laws are in Classes/Gates.
--   Classes/TimerOff, TimerOn, TimerPulse, TimerClock, RelayBistable, Cmp and Mux (classes/timer-off/main.c
--     and so on): each has the record Ctx for `ctx_t`, `new` for `_new`, `start` for `_start` and `input`
--     for `_input`, and a function for each other handler. A handler returns the context and the calls
--     that it makes outside, in order (Classes/Calls). The tag that `sys_timeout` returns is an
--     argument; the runs of an object are the data type Reachable, which says what of the event loop
--     they rely on.
--   Classes/Gpio, Classes/Proc (classes/gpio/main.c, classes/proc/main.c): an input or output of the device,
--     and a program that runs, with the same layout. Blink and Running are about their runs.
--   Classes/Endpoints (classes/sink/main.c, classes/source/main.c): the objects that stand for endpoints.
--
-- Os/Sys (os/linux/sys.c): the table of sources, with a function for each operation. Loop is `sys_run`:
--   the callbacks, what `poll` and `waitpid` report and the time of each round are parameters. Tags, Steps and
--   Removal are about the tags, Timers and Waiting about the timers of a round. The loops over the table
--   count its places down; `sys_run` runs over the list of the rounds that the world goes through.
--
-- Tests holds the theorems at concrete inputs.
--
-- Integers are unbounded where the headers of the files say so; the thresholds
-- of Classes/Cmp and the product of Classes/TimerClock wrap at 32 bits; the coding of history values keeps the
-- 64 bits of `long long`, and a tag 32 bits. Not modelled: of core/mod.c the look for a tile in the
-- file system; the sockets, the web server, the MQTT client, the system calls, the devices and the
-- programs, which do input and output; what libraries outside of the repository do.
pub mod Base
pub mod Core
pub mod Classes
pub mod Os
pub mod Tests
