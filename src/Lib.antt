-- ===== src/Lib.antt =====
-- The Python SDK of KnotLink: a client library for a local message server. A program takes one of
-- four roles, each over a TCP connection of its own to 127.0.0.1: it sends signals, subscribes to
-- signals, answers requests on an open socket, or asks such a socket. All messages are framed by
-- a magic number and a length, and heartbeats keep the connection alive.
--
-- knotlink-sdk-python/knotlink/knotlink/tcpclient.py is Wire (the frame that
-- `_write_with_length_prefix` writes, and `next_message`, the locked part of a round of
-- `_process_buffer`), Tcp (TcpClient, a record with the fields of the class, and one function per
-- method) and Tcp.Net (what is used of `socket`). The methods are functions on the state that
-- return a value or an exception beside the new state (Exec), since what was written before a
-- raise stays written. A client's callback works on the state of the object that registered it:
-- Client holds both. In Tcp.Reentrant the callback works on the client too, so that it can call
-- methods such as `disconnect`.
--
-- OpenSocketQuerier.py, OpenSocketResponser.py, SignalSender.py and SignalSubscriber.py are
-- Roles.Querier, Roles.Responser, Roles.Sender and Roles.Subscriber; they call the operations of
-- Tcp by `on_tcp`. Roles.Conversation puts the server, a parameter, between a querier and a
-- responder. kludf.py is KvMap, a list of items in their order; KvMap.Dicts makes a dict of it, a
-- quotient that forgets the order. knotlink-sdk-pyqt/knotlink-pyqt/knotlink-pyqt/ is Qt: the same
-- client and roles over PyQt5, whose socket and timer are a parameter (Toolkit) with the
-- documented behaviour as hypotheses (IsQt). Qt.Connection is tcpclient.py there, with the slots
-- that are connected to its signals as a parameter; `hosting` are slots that work on their own
-- object only, as those of the roles do. Qt.Sender, Qt.Subscriber, Qt.Responser and Qt.Querier
-- are the roles, and keep what they emit in a log. The frame and the scan of the buffer are those
-- of Wire.
--
-- Text models the parts of Python's texts that the roles use: the codec "utf-8" with its two ways
-- to treat errors, `index` and `split`. Scripts are the examples of use at the end of the files,
-- which run as programs. Base and Exec are shared helpers, and Examples applies the theorems to
-- concrete inputs.
--
-- Threads: the reading thread is `receive_data` over the list of what `recv` brings, an event
-- being bytes, an error, or an error because another thread has called `disconnect`. Timers have
-- numbers, and firing is a call of its own. Tcp.Calls puts the calls of `connect_to_server`,
-- `start_heart_beat`, `send_heart_beat`, `send_data` and `disconnect`, the settings of the
-- callback and the events into a step relation in any order, with a new call only after the last
-- one has ended, and Tcp.Soundness has what holds also where a program starts heartbeats of its
-- own; Tcp.Race takes a heartbeat and `disconnect` apart into steps, one for each test, each
-- reading or writing of a field and each call of the socket or of a timer, and lets these
-- interleave. In Roles.Responser.Turns the chunks that the responder's reading thread gets and
-- the rounds of its other thread follow each other in any order. What other threads do while
-- `query` waits is a list of arrivals, Roles.Querier.Arrivals says where the messages of a stream
-- go, and Roles.Querier.Concurrent lets two threads query at once, in steps that take turns.
-- Tcp.Transfer puts a client at each end of a stream. Tcp.Writers has two threads in `sendall` at
-- once, which hand their frames to the system in parts. Socket faults are a list that says what
-- each coming `sendall` meets.
--
-- In Qt there is one thread: signals, timer events and received bytes are calls in any order
-- (Qt.Connection.Streams), and the event loop of `query_l` runs over a list of what `readAll`
-- brings. An exception that a slot of the querier does not handle aborts the program, as PyQt5
-- does by default; in the other roles it is logged.
--
-- Bounds and fuel: bytes and code points are numbers; a length that is packed is at most 16 MB,
-- so that four bytes hold it. The loops of `_process_buffer` and `_processBuffer` run on fuel,
-- one round more than the buffer has bytes, which is enough because each message takes nine bytes
-- at least and no slot adds any; the loop of the responder's thread runs for any given number of
-- rounds, as it polls until it is disconnected.
--
-- Not modelled: logging, the wall-clock times of heartbeats and timeouts, other interleavings
-- within a method, a query from within a callback that catches the timeout, `__enter__`, that
-- PyQt5 aborts the program also after an exception of a slot of its subscriber or its responder,
-- nested event loops of several `query_l`, the SDKs in other languages, packaging, tests and data
-- files.
mod Base
pub mod Exec
pub mod Wire
pub mod Tcp
pub mod Text
pub mod KvMap
pub mod Roles
pub mod Qt
pub mod Scripts
pub mod Examples
