-- ===== src/Lib.antt =====
-- Models of the C runtime of the server, the skynet framework, with the theorems that make its
-- parts correct. A service owns a message queue. Worker threads take queues from a global queue,
-- take one message, and give the queue back. The timer turns requests to wake up into messages for
-- the queues. The gate cuts the bytes that arrive on sockets into packages, and hands each to a
-- service.
--
-- How the parts meet: skynet_mq_push is how the timer, the sockets and the services leave a message
-- for a service. The timer's events are the messages of Timer.event_message, of the type
-- Mq.Message. The worker thread that takes a message calls skynet_monitor_trigger around it. A
-- context is found through the table of handles, which has one reference to it, and stays while a
-- thread holds another. The packages of lua-netpack.c go to the handlers of
-- lualib/snax/gateserver.lua, which run in a service.
--
-- * Shared passes the libraries' names on, and has lists indexed by native numbers, arrays as
--   functions (update), masks of bits as remainders (Bits), integers (Int) and references that
--   threads hold (Holders).
-- * Mq is skynet-src/skynet_mq.c. MessageQueue is struct message_queue, World is the heap with the
--   static Q, and mq_pop, mq_push, mark_release, mq_release, globalmq_push and globalmq_pop are the
--   functions skynet_mq_pop and so on. Mq/Ring reads the ring as a list, Mq/Run is about whole
--   runs, Mq/Threshold about overload. Mq/Global reads the linked global queue as a list. Mq/Queues
--   is the step relation of threads that share the queues, Mq/Queues/Steps preserves its invariant,
--   Mq/Queues/Safety draws the consequences.
-- * Timer is skynet-src/skynet_timer.c. Timer.Timer is struct timer; add_node, move_list,
--   timer_shift, timer_execute, timer_update and updatetime are its functions. Timer/Slot has the
--   arithmetic of the digits of a tick, Timer/Bags counts nodes, Timer/Shift is the cascade,
--   Timer/Wheel one update, Timer/Clock many.
-- * Monitor is skynet-src/skynet_monitor.c, with the three accesses of a trigger apart, and
--   Monitor/Watch says what its check reports.
-- * Handle is skynet-src/skynet_handle.c. HandleStorage is struct handle_storage; register, grab,
--   retire, find_name, insert_name and handle_init are skynet_handle_register, skynet_handle_grab,
--   skynet_handle_retire, skynet_handle_findname, skynet_handle_namehandle and skynet_handle_init.
--   What a context answers as its handle is the argument handle_of. Handle/Slots says what the
--   slots hold and finds a free one, Handle/Rehash is the move to twice as many, Handle/Register
--   and Handle/Retire are about the table by handle, Handle/Order is the order of strcmp, which is
--   written out for texts without zero bytes, Handle/Bisection the search, Handle/Names the table
--   by name.
-- * Rwlock is the lock of skynet-src/rwlock.h that Handle takes for granted, in the build without
--   pthread. Rwlock.act is the next access of a thread in rwlock_rlock, rwlock_wlock,
--   rwlock_runlock and rwlock_wunlock; Rwlock/Count has the invariant, Rwlock/Exclusion and
--   Rwlock/Progress draw the consequences. Only the order of accesses to the lock itself is
--   modelled, each seen by all threads at once, and fewer than 2^31 threads.
-- * Context is the life of contexts in skynet-src/skynet_server.c. Context.Node is the contexts in
--   memory and the total of struct skynet_node; context_new is skynet_context_new up to the start
--   of the instance, context_grab and context_release are skynet_context_grab and
--   skynet_context_release. Context/Table is the interface of the table of handles that this needs,
--   with Handle as its implementation; Context/Steps has the steps of the threads and the
--   invariant, Context/Safety the consequences. That skynet_context_new registers a context and
--   then writes the handle into it is one step; set_init is its last write, by a thread without a
--   reference.
-- * SocketServer is the sending on a TCP socket in skynet-src/socket_server.c. SocketServer.Socket
--   is struct socket, with the bytes that the kernel took; send_buffer, send_socket, close_socket
--   and the functions below them have the names of the code, and poll_write is the part of
--   socket_server_poll about write events. The answers of the system call write are an argument.
--   SocketServer/WriteList is send_list_tcp, SocketServer/Order says in which order packages go
--   out, SocketServer/Lows and SocketServer/Drain are about send_buffer, SocketServer/Appends and
--   SocketServer/Requests about send_socket, SocketServer/Delivery about any sequence of calls.
-- * Netpack is lualib-src/lua-netpack.c. Netpack.Queue is struct queue, filter_data is
--   filter_data_, and pop, pack, filter and clear are the functions of the same names with an l
--   before them. Netpack/Frames says what the packages of a stream are, without the code's state.
--   Netpack/Ring is about the queue of whole packages, Netpack/Partial about the packages cut
--   short, Netpack/Reads about push_more, Netpack/Fill and Netpack/Filter about filter_data_.
--   Netpack/Stream has the driver in lualib/snax/gateserver.lua, with its table of connections, and
--   streams in pieces, Netpack/Delivery the way from lpack to the handler.
-- * Hashid is service-src/hashid.h, which gives a connection of the gate its cell. Hashid.Hashid is
--   struct hashid, and the functions have the names of the code. Hashid/Chains is about one chain,
--   Hashid/Lookup about the map, Hashid/Change about removing, Hashid/Insert about inserting.
-- * Gate is service-src/databuffer.h with _forward and dispatch_message of service-
--   src/service_gate.c. Gate.DataBuffer is struct databuffer, the functions have the names of the
--   code, and Effect is what the gate asks of the runtime. What snprintf prints in front of the
--   data for a watchdog is the argument data_text. Gate/Buffer reads the messages as one list of
--   bytes, Gate/Packages says what the packages of a stream are, Gate/Dispatch is about one call,
--   Gate/Pieces about many, Gate/Delivery about packages from lpack.
-- * Seri and Unseri are lualib-src/lua-seri.c, the writer and the reader. Seri.Value is what a Lua
--   value is for them; the functions have the names of the code, and pack_items is the loop of
--   wb_table_array and of pack_from, unpack_items and unpack_pairs are the loops of unpack_table.
--   Numbers lie in memory with the low byte first, and pointers have 8 bytes. Seri/Blocks reads the
--   blocks as one list of bytes, Seri/Encoding and Seri/Packing say which bytes are written,
--   Seri/Refusal when there is an error. Unseri/Numbers reads numbers back, Unseri/Within and
--   Unseri/RoundTrip values.
-- * Sproto is the zero packing of lualib-src/sproto/sproto.c with lpack and lunpack of lualib-
--   src/sproto/lsproto.c. The functions have the names of the code; a pointer to bytes that are
--   read is the list from there to the end, and an access out of a buffer is none. Sproto/Memory is
--   about buffers as lists, Sproto/Tokens describes a packed stream, Sproto/Segment is pack_seg,
--   Sproto/Packing, Sproto/Rounds and Sproto/Loop are sproto_pack, Sproto/Sizes is the size it
--   gives, Sproto/RoundTrip has both ways.
--
-- Conventions. `none` as the result of an operation is a fault: a failed assert, an access out of
-- range or of a cell never written, a dangling pointer, an overflow of int. A theorem that an
-- operation returns `some` therefore says that it does not fault. Unsigned arithmetic on 32 bits
-- wraps and is written with a remainder. What runs under a spin lock is one step.
--
-- Fuel. raise_threshold has the length of the queue as fuel, and each round doubles a threshold
-- that is not zero, which Mq/Threshold uses; drain has one more than the messages held. find_level
-- has three rounds and shift_loop four, the loops' own bounds on the levels, and execute_loop two,
-- as a list is taken whole by its first round. push_more has the number of bytes, of which each
-- call takes at least two. dispatch_queue has the capacity of the queue, which is more than the
-- packages that it holds. register_loop has two rounds, as there is a free slot once the slots are
-- doubled. search_name has a round for each name and one more. double_to has as many rounds as
-- there are cells, and each doubles a number that is 16 or more, so it ends with one that is large
-- enough, as Hashid/Lookup shows; free_cell has the code's own bound. dispatch_loop has one round
-- more than there are bytes, as each takes a byte at least. pack_loop has the bytes left, of which
-- a round takes eight or all, and unpack_loop the length of the source, of which a round takes a
-- byte at least. wb_copy has the number of bytes to write. luaseri_unpack has three for each byte
-- of the buffer and three more, which is enough for what luaseri_pack wrote, as Unseri/RoundTrip
-- shows.
--
-- Not modelled: the contents of messages, memory that is freed but for message queues and contexts,
-- failing allocation, the spin locks themselves, the accesses of a program to other memory than the
-- lock's, the Lua stack, and what a service does with its messages, the opening and reading of
-- sockets, UDP, the harbor, the modules, the Lua bindings, the ciphers, and the codecs of bson and
-- of sproto's types.
pub mod Shared
pub mod Mq
pub mod Timer
pub mod Monitor
pub mod Handle
pub mod Rwlock
pub mod Context
pub mod SocketServer
pub mod Netpack
pub mod Hashid
pub mod Gate
pub mod Seri
pub mod Unseri
pub mod Sproto
