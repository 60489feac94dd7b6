-- ===== src/Lib.antt =====
-- Verification of the message path of syslog-ng 2.0.10, the C program under
-- tools-n-scripts/sysadm/syslog-ng-2.0.10/src/syslog-ng-2.0.10/src/ (the paths below are relative
-- to that folder).
--
-- A source reads a descriptor (logreader.c), cuts what it reads into messages (logmsg.c) and
-- queues each on its pipe (logsource.c), which takes one from the window of the source. The center
-- (center.c) routes a message by the log statements and their filters (filter.c) to destinations,
-- whose writers (logwriter.c) queue it, format it and write it. Acknowledgements run back along
-- the blocks that source and center put on a message, and give the window back. Files (affile.c)
-- and sockets (afsocket.c) are opened around readers and writers, and handed to the next
-- configuration at a reload (cfg.c). Host names are looked up through a cache (dnscache.c), and
-- counters are registered by name (stats.c).
--
-- The files:
--   Prelude   Lists, tests and C integers over the native numbers.
--   Message   logmsg.h: the fields of a message, its stamps, the LP_* flags.
--   Stamp     logmsg.c: log_stamp_format; misc.c: format_zone_info, get_local_timezone_ofs.
--   Parser    logmsg.c: log_msg_parse. Parser/Date is the time stamp, Parser/Header the host and
--             program, Parser/Whole the rest, with log_msg_new and log_msg_new_mark. Parser/Relay,
--             Parser/Digits and Parser/Zone compare it with what is printed elsewhere, Parser/Safety
--             and Parser/Usec are about what it leaves in a message.
--   Macros    macros.c: result_append; Macros/Table is the table with log_macro_lookup,
--             Macros/Expand is log_macro_expand. Macros/Quoted has a reader of quoted literals.
--             Macros/Statements joins the macros with the templates.
--   Names     syslog-names.c: the tables of levels and facilities and their lookups.
--   Reader    logreader.c: log_reader_handle_line, log_reader_iterate_buf. Reader/Fetch is
--             log_reader_fetch_log. Reader/Frame has the machine that takes one byte at a time,
--             which Reader/Stream compares the reader with; Reader/Stream/Restart has two readers
--             one after the other. Reader/Bounds is about the buffer, Reader/Options the options.
--             Reader/Watch is the event source.
--   Ack       logmsg.c, logsource.c, logpipe.c: reference counts, acknowledgement blocks, the
--             window of a source. A failed assertion is none.
--   Center    center.c: log_center_queue. Center/Init is log_connection_new and log_center_init,
--             which Center/Started is about. Center/Routing is about where a message goes,
--             Center/Settling about the path of one message from its source and back, and
--             Center/Out about a message while destinations settle it.
--   Groups    sgroup.c: log_source_group_queue; dgroup.c: log_dest_group_queue. Groups/Hosts is
--             about host names; Groups/Owed counts what a message owes under any nesting of blocks, which
--             Groups/FanOut and Groups/Balance use.
--   Internal  afinter.c: the marks and the event source; messages.c: msg_send_internal_message.
--   FdIo      fdread.c, fdwrite.c, alarms.c: the retry loops of reading and writing.
--   Writer    logwriter.c: log_writer_queue, log_writer_format_log, log_writer_deinit, _broken,
--             _free. Writer/Flush is log_writer_flush_log, Writer/Watch the event source. The
--             calls a writer makes elsewhere are recorded as a list.
--   Persist   cfg.c: PersistentConfig, and saving and loading it; Persist/Restart is about the two.
--   File      affile.c: affile_open_file. File/Dest has the writers of a destination by file name,
--             File/Reload reaps them and hands them to the next configuration; File/Table is the
--             table. File/Delivery has a destination at work: its children follow the queues
--             through each step, up to File/Delivery/Kept. File/Optional is about files that do
--             not open. File/Source and File/Source/Driver are the sources, with the positions of
--             logreader.c; File/Source/Restart is about the position after a restart,
--             File/Source/Lines about the lines that are read before and after it, and
--             File/Source/Deferred about a file that is not there at first.
--   Socket    afsocket.c: sources with their connections, through reloads, which Socket/Limit and
--             Socket/Listener are about; Socket/Dest is a destination with the main loop that it
--             attaches its sources to, which Socket/Dest/Alive is about.
--   DnsCache  dnscache.c: dns_cache_store and the table; DnsCache/Hosts is the hosts file,
--             dns_cache_lookup, and the cached part of resolve_hostname (misc.c).
--   Filter    filter.c: filter_expr_eval and its nodes, syslog_make_range (syslog-names.c).
--             Filter/Meaning reads an expression as a Boolean formula.
--   Template  templates.c: log_template_compile and log_template_format, on any table of macros.
--   Stats     stats.c: registering, unregistering, orphaning, cleanup.
-- Each Tests file has runs at concrete values.
--
-- What the code takes from the system is a parameter: the descriptor's read and write, the time,
-- the functions of time.h, regexec, strcasecmp, gethostbyaddr, stat and fgets of the hosts file,
-- g_time_val_add, g_strdown, stdio, open, stat, mkdir and the like, and the outcomes of socket
-- calls. The formatting that a writer calls and the expansion that a template calls are parameters
-- of these. A GString is the list of its bytes.
--
-- Fuel: the loop over the lines of a buffer has the length of the buffer, since a round takes off
-- at least a terminator. The fetch loop has fetch_limit * (msg_size + 1) + msg_size + 1, since a
-- round counts a message or fills the buffer further. A filter has the depth to which its calls
-- nest; a rule that calls itself has no such depth, and the C program then overflows its stack.
-- Compiling a template has its length.
--
-- The retry loops of FdIo have the number of interruptions and one; without a bound on those they
-- need not end. Numbers that the code keeps in an int or a time_t are not reduced where a comment
-- in the file says so: the priority of a message and the seconds of a time. The number of a match
-- reference in a template and the target of a mark wrap around as a gint of 32 bits; a long has 64
-- bits.
--
-- A PersistentConfig is loaded with one round for each entry and one. The hash tables of GLib are
-- association lists, and what depends on their order is not stated.
--
-- Not modelled: the configuration but for what it keeps, and its grammar; the socket interface and
-- the drivers of programs and users, which are calls of the system; and the debugging output.

pub mod Prelude
pub mod Message
pub mod Stamp
pub mod Parser
pub mod Macros
pub mod Names
pub mod Reader
pub mod Ack
pub mod Center
pub mod Groups
pub mod Writer
pub mod DnsCache
pub mod FdIo
pub mod File
pub mod Filter
pub mod Internal
pub mod Persist
pub mod Socket
pub mod Stats
pub mod Template
