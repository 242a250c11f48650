-- ===== src/Lib.antt =====
-- BlitzMail in Python. Its notification system: a server that takes notices over TCP and sends them
-- to registered clients over UDP, the packets and the exchange under it, the client and the session
-- that use it. Its mail client: signing on, messages, folders, mailing lists, preferences and
-- warnings. And the articles of bulletins.
--
-- The parts, and the files that model them:
--   notify/packet.py    Packet.antt. Struct has the byte fields of `struct`; Service the table
--                       NOTIFY_SERVICE; Notice, Register and Clear the requests make_*_req and
--                       parse_*_req; Atp the ATP packets, make_atp_packet and parse_atp_packet.
--   notify/ntypes.py    Atp.antt. Queue has QElem and the subclasses of Request, Response and Release;
--                       Object has ATPObject: `addreq`, one turn of `_sender` (`pass`) and one datagram
--                       of `_receiver` (`receive`), where a subclass's do_req, do_rsp and do_rel are
--                       the record Handlers. Notification.type and .data are in Subscriber.antt.
--   notify/notifyd.py   Notifyd.antt. Db has NoticeDB over an abstract database, Client the class
--                       Client, Udp the class NotifyUDPServer, World the state of NotifyTCPServer that
--                       all connections share, Wire the texts that the handlers read and write, Tcp the
--                       cmd_* methods of NotifyTCPHandler and Tcp/Handle its loop `handle`.
--   notify/session.py   Sender.antt: what post_notify, post_reset, clear_sticky and add_client send.
--   notify/client.py    Subscriber.antt: NotifyClient and its queue.
--   bulls.py            Bulletins.antt: the articles read of a Topic. Bulletins/Articles has class
--                       Article and how a topic that is loaded lists its articles.
--   session.py          Link.antt: class Session, the commands that it sends and the answers it reads.
--                       Of class BlitzSession, Blitz.antt has _expect and the steps of which methods
--                       are made, Prefs the preferences, SignOn the dialog of reconnect with sign_on
--                       and close, Settings the vacation message and the forwarding address, Lists
--                       and Folders the caches of mailing lists and folders, Warnings
--                       check_warnings.
--   bmesg.py            Message.antt: the body of a BlitzSummary and its cache. Message/Header has the
--                       class BlitzHeader, Info the line of a summary, Commands the other commands,
--                       and Outbound the class BlitzOutboundMessage.
--   bfold.py            Folder.antt: class BlitzFolder.
--   blist.py            Lists.antt: BlitzList and its subclasses, as objects of a store.
--   bwarn.py            Warnings.antt: the warnings.
--   berror.py           Errors.antt: exceptions are values of Error, and a call that may raise is a
--                       Result next to the state it leaves.
-- Common.antt has the shared helpers: lists measured by native numbers, bytes, integers, decimal
-- numbers as `int` and `str` treat them, lines and fields.
--
-- How they interact: a session writes a NOTIFY line; the handler parses it, enters a sticky notice in
-- the database, and posts it; the UDP server queues one packet for each client that wants it; a pass
-- of the writer sends the packets that are due; the client's receiver parses the datagram, queues the
-- notification, and queues a response; the server answers that with a release.
--
-- The mail classes call methods of their session; an object is a record with its session in it, and a
-- method is a Call: a function of the object to a Result and the object it leaves. What the peer says
-- is the input of the Link, all at hand; Blitz/Online.antt has the answers as a server writes them, and
-- a theorem on a method gives the input that the server's side of the dialog produces.
--
-- The code is Python 2: the flags of a packet are read in the order in which CPython 2.7 goes
-- through the dictionary ATP_FLAG. A write to a client of the TCP server fails only where the loop
-- of its connection (`serve`) says so. Text is a list of byte values. The clock is an argument, a
-- natural number of seconds. Threads are sequences of atomic steps: Notifyd/Udp/Run.antt has the
-- events of the UDP server and Notifyd/Tcp/Reach.antt the steps of all connections and the UDP
-- server on the shared state; steps may follow an exception that would end the thread, so that more
-- is allowed than can happen. A mutex that an exception leaves held is a flag, and a call that waits
-- for it for ever ends in `blocked`. Notifyd/Mutexes.antt has only the order in which threads take
-- the four mutexes and give them back, with the places where an exception leaves one held and the
-- wait of the writer until it is notified. The loop of a connection makes one turn for each reading
-- of the clock that it is given, up to the first in which the client does not take what is written.
-- The fuel of `digits` is more than the number, that of `strings` the length of the text, and that
-- of `lines_up_to`, of `collect` and of the loops over answers (`until`, `warnings`) the number of
-- lines to read; these are proved to be enough.
--
-- Parameters, since their code is not in the repository: the name directory `dnd` (Notifyd/Directory),
-- the SQL database (Notifyd/Db, with the documented behaviour of its statements). A database that
-- refuses a value, such as an integer of more than 64 bits, is not considered.
--
-- Of the mail client, the time zone by which a date of delivery is a time (Message/Info, Folder), the
-- encryption of a challenge, the directory and the network (SignOn), and the quoting of a folder's name
-- are arguments. Offsets into a body and lengths are natural numbers.
--
-- Not modelled: sockets and their failures, start and stop of threads, the option parsers, debugging
-- output; of bmesg.py the MIME catalog, get_message and expiry by a text; of bfold.py the preferences
-- of a folder; of bulls.py the topics of a session, whose lines the module csv reads;
-- notify/procnotify.py.
mod Common
pub mod Errors
pub mod Packet
pub mod Atp
pub mod Notifyd
pub mod Sender
pub mod Subscriber
pub mod Blitz
pub mod Bulletins
pub mod Link
pub mod Prefs
pub mod Message
pub mod Folder
pub mod Lists
pub mod Warnings
pub mod SignOn
pub mod Settings
pub mod Folders
