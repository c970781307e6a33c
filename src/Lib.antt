-- ===== src/Lib.antt =====
-- A verification of parts of the Linux AX.25 suite: the library libax25, the applications ax25apps
-- and the tools ax25tools, three trees of C programs beside each other.
--
-- ax25ipd carries AX.25 frames over IP. A frame comes in on a serial line as KISS bytes, is put
-- together by `assemble_kiss`, and `from_kiss` finds the next hop in its address field, asks the
-- routes for an IP address, appends a checksum and hands the packet to the network. A packet from
-- the network goes the other way by `from_ip`, which checks the checksum and lets the routes learn
-- from the sender's address, and `send_kiss`.
--
-- Prelude holds the numbers, lists and bit operations that all parts use.
-- Ipd.Crc: ax25apps/ax25ipd/crc.c and `add_crc` of process.c.
-- Ipd.Kiss: ax25apps/ax25ipd/kiss.c. The static buffers `iframe` and `oframe` with their counts
--   are lists, `param_tbl` with `param_tbl_top` is a list; `from_kiss` is a parameter there.
-- Ipd.Frame: the address field, from process.c (`addr_field_ok`, `next_addr`, `from_addr`). A
--   pointer into a frame is an offset, and a read past the end is `none`.
-- Ipd.Call: `addrmatch` and `addrcompare` of process.c, and the normal form that routing.c gives
--   every callsign.
-- Ipd.Routing: ax25apps/ax25ipd/routing.c. A pointer to a route is its place in the list of
--   routes. `gethostbyname`, the clock and `pthread_create` are parameters.
-- Ipd.Process: `from_kiss`, `from_ip` and `do_beacon` of process.c with `send_ip` and `send_tty` of
--   io.c, on a record of the daemon's state that keeps all that was sent, in order.
-- Ipd.Setup: ax25apps/ax25ipd/config.c, `a_to_call` and `call_to_a`, and in its child modules Lines
--   and Words `parse_line` and `config_init`; `inet_addr` and `gethostbyname` are parameters.
-- Address: libax25/lib/ax25/axutils.c, the comparisons of addresses, `ax25_validate` and the
--   conversion of Rose addresses. Address.Text: `ax25_aton_entry`, `ax25_aton`,
--   `ax25_aton_arglist`, `ax25_ntoa`, `strupr` and `strlwr` of the same file; a string is the list of
--   its characters before the 0 byte, and -1 is `none`.
--
-- ax25rtd listens to the traffic and keeps routes to the stations it hears, for IP and for AX.25, in
-- two caches of a limited size, and passes them on to the kernel.
-- Rtd: ax25apps/ax25rtd/cache_ctl.c. A cache is the list of its entries, the order of the pointers
--   `next`; what the kernel is asked to remove is kept in order. A read of freed memory is `none`;
--   whether the `next` that `remove_ax25_route` reads of an entry it has just freed can still be read
--   is a parameter, `freed_readable`.
--
-- rip98d tells other routers its routes, in messages of at most thirty, and learns theirs.
-- Rip: ax25tools/tcpip/rip98d.h and the masks of rip98d.c. Rip.Transmit: rip98t.c. Rip.Receive:
--   rip98r.c, after `recvfrom` has filled its buffer of 500 bytes.
--
-- netromd tells its neighbours in broadcasts the nodes that the kernel knows, and learns theirs.
-- Netrom: ax25tools/netrom/netromd.h and what both sides share; a broadcast is the list of its bytes.
--   Netrom.Transmit: `build_others` of netromt.c, Netrom.Mine: `build_mine` of it. Netrom.Receive:
--   netromr.c; `alias_end` is how far an alias is written, which no file limits; the requests to the kernel are kept in order, and its answer to each is a parameter.
--   Netrom.Exchange: both together.
--
-- Numbers: a byte is a number below 256 and an `unsigned short` one below 2 ^ 16, the wrap-around
-- is written out where the code relies on it. The counters of `stats` are unbounded. A port stands
-- in the host's order, and an IP address is the word that its four bytes make.
--
-- Fuel: the walks over an address field, `next_digi` and `from_digi`, have the length of the frame
-- as fuel; they pass seven bytes a round, so that on a frame that `addr_field_ok` accepts it is
-- enough. `transmit_from` has the number of routes, of which a round takes one or more, and
-- `receive_from` one more than the length of the message, of which a round passes six bytes.
-- `others_from` has one more than the number of lines, of which every full broadcast takes one or
-- more, and Netrom's `receive_from` one more than the length, of which a round takes 21 bytes.
-- `aton_from` has one more than the length of the text; a round passes a word and the blank behind
-- it, and the loop ends where the text does. `field_ok`, `first_diff`, `rose_differ` and
-- `leading_zeros` count the rounds of the code's own bounded loops or its bits. All other loops run
-- over a list or a tree.
--
-- Call: ax25apps/call. Call.Dostime is dostime.c: `date_dos2unix`, `date_unix2dos`, and in Text
-- `unix2yapp` and `yapp2unix`; `none` is undefined behaviour. Call.Yapp is yapp.c: the packets
-- (`Send_RR` and the others), and the two loops of each side, `drain` over what is in the buffer and
-- `select_loop` over what `select` finds, an Event: bytes that are read, a connection that takes some, or
-- a reason to end. Receive has `yapp_download_data` and `yapp_download`, Transmit has
-- `yapp_upload_data` and `yapp_upload`. The records Download and Upload hold the static variables
-- `state`, `total`, `readlen`, `outbuffer` with `outlen` and `yappc`, the files, and what is written to
-- the connection. `drain` has as its fuel one more than the bytes in the buffer, which is enough as
-- each packet has two bytes or more; a number is printed with fuel one more than itself. What `open`
-- finds in a file of a name is a parameter, and so is `moves`: whether `memcpy` of areas that overlap,
-- which C leaves undefined, moves the bytes as `memmove` does; where it is false, such a call is `none`.
-- `send_header` is the call of `Send_HD` with its `int` for the length of the file. `total`, an `int`
-- that is only printed, is not bounded.
--
-- Mkiss: ax25tools/kiss/mkiss.c, which passes KISS frames between a serial line and pseudo terminals.
-- Iface is `struct iface`, `kiss_tx` gives the bytes that are written, `kiss_rx` the frame where its
-- length is not 0, `from_tty` passes a frame on; `none` is a write past the end of an `obuf`.
--
-- Not modelled: what is logged and printed; errors and retries of `sendto` and `write`; the mutex,
-- and the DNS thread inside a call, which is one step here; the filters that TNC_FILTER turns on,
-- which is not defined; `malloc` that fails; the event loop and the kernel's interface of ax25ipd,
-- and the reading of its configuration file into lines; the listener, the configuration and the
-- control socket of ax25rtd, and `load_cache`; `read_routes` and `load_dests` of rip98d and its loop;
-- `transmit_nodes` of netromd and its loop; numbers in a text that do not fit an `int`; the rest of
-- libax25; in call, what is printed and `cmd_yapp`, and all but these two files; in
-- mkiss, polling, reports and the counters of what is sent; the other programs.
pub mod Prelude
pub mod Address
pub mod Call
pub mod Ipd
pub mod Mkiss
pub mod Netrom
pub mod Rip
pub mod Rtd
