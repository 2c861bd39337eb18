-- ===== src/Lib.antt =====
-- litemq: the message queue, the poller of descriptor handlers, a connection handler and the time
-- classes that they use.
--
-- A client adds messages to a MessageQueue; a connection takes them from its front by pop, gives
-- back by push_front what it did not send, and expires them by clear_timeouted, all of them under
-- a lock. A DescriptorHandlerPoller waits on epoll with several threads. An event leads to
-- handle_, which calls read and write of the handler that belongs to the descriptor and applies
-- the flags that they return; a handler that closed both directions is taken out, and its holder
-- is left to a DescriptorHandlerCleaner, which is to let it go when no thread can refer to it any
-- more. The example server's handler reads lines, queues an answer to each of them and sends the
-- answers. Deadlines and the log use Gears::Time and its civil dates; times are written and read
-- in formats, with substrings and sets of characters. A poller is a composite of active objects,
-- which are started in order and stopped in reverse.
--
-- Prelude (and Prelude/*): shared names, Boolean tests, lists, machine words and integers.
-- Time: gears/Time.hpp, the operators of Time; Time/Calendar: gm_to_time and time_to_gm of
--   gears/Time.cpp, ExtendedTime::normalize and its constructor. Time/Order, Time/Arithmetic,
--   Time/Scaling and Time/Calendar/RoundTrip hold their theorems. Time/Extended, Time/Format and
--   Time/Parse: ExtendedTime, its to_str_, format, gm_f and gm_ft, and from_str_, set, set_f and
--   set_ft. Time/Parse/RoundTrip is about both, Time/Format/Fits and Bounds about the buffer.
-- SubString: gears/SubString.hpp and gears/SubString.tpp, BasicSubString: positions, parts,
--   comparison and search. SubString/View is about the parts, Comparing and Searching the rest.
-- Ascii: gears/AsciiStringManip.hpp and gears/AsciiStringManip.cpp: letters of either case, CharTable
--   (Ascii/Ranges), the searches for characters and flatten (Ascii/Flattening), and strings without
--   regard to case (Ascii/Caseless).
-- MessageQueue: litemq/Message.hpp and litemq/MessageQueue.hpp, one function per operation (push_front,
--   clear_timeouted, pop, eldest_time, need_to_send, expire). MessageQueue/Flow is about pop and
--   push_front, Expiry about clear_timeouted; Holders and Timed hold what these share.
-- Poller/Holder, Poller/Cleaner, Poller/Handling: litemq/DescriptorHandlerPoller.hpp and .cpp,
--   apply_state_modify_ and a round of handle_, the class DescriptorHandlerCleaner, and handle_ as
--   the steps of its threads. A step is one atomic operation, one call of the handler or of epoll, or
--   one block under a lock; release, which handle_ ends with, is such steps too. Cleaner/Safety is
--   about what the cleaner keeps, Cleaner/Ending about the end of a round. Poller/Stopping is
--   the stop pipe with the threads of process_, Poller/Pool the handlers of a poller and the pool.
-- Server: src/Server/main.cpp, HashConnectionDescriptorHandler: read, write and
--   reconfigure_write_bufs_.
-- Strings: gears/StringManip.hpp and gears/StringManip.cpp. Strings/Hex: hex_encode, hex_low_encode
--   and hex_decode; Strings/Numbers: str_to_int and int_to_str; Strings/Concat: append and concat.
-- Connection: litemq/Connection.cpp, SendDescriptorHandler: fill_send_messages_,
--   remove_sent_messages_ and write, with the message queue; Connection/Sending holds its theorems.
-- ActiveObject: gears/ActiveObject.cpp, SimpleActiveObject, and gears/CompositeActiveObject.hpp.
--   ActiveObject/Activation is about activate_object of a composite, ActiveObject/Stopping about
--   deactivate_object and wait_object, ActiveObject/Order about the order of the calls; Changes and
--   Calls hold what these share. ActiveObject/Threads is ActiveObjectCommonImpl.
-- ThreadRunner: gears/ThreadRunner.hpp and gears/ThreadRunner.cpp, ThreadRunner; ThreadRunner/Threads is about
--   its loops, ThreadRunner/Starting about start and wait_for_completion.
--
-- Words of 32 and of 64 bits are natural numbers below 2 ^ 32 and 2 ^ 64, with the wrap-around of
-- unsigned long, and of an atomic int, written out. Seconds of a Time are exact integers. Digits
-- of a number are taken with a number above it as fuel, which low_digits never uses up, since
-- each digit lowers the number. A range of characters in CharTable has 256 rounds, since a
-- character wraps around after as many, and flatten as many rounds as characters, since each
-- round takes one off. to_str_ calls itself two deep at most: the formats that it gives to itself
-- have no %F or %T. The rounds of write in Connection have a bound that its theorem leaves open,
-- and a result of its own where they are used up; behind the end of the results of ::sendmsg each
-- call would block. The other loops are recursion on lists, the list of what the system calls return
-- included; read and write of the server and ThreadRunner return nothing where the list ends before
-- the code is done.
--
-- Not modelled: the two templates add of MessageQueue, which can not be instantiated; what a
-- thread does that pthread_join failed for; the contents of exceptions and logs, the locks (an
-- operation under a lock is one step), the system calls themselves, the opening of sockets, the
-- handlers that wait in a Connection, double arithmetic, and the local time zone, whose mktime
-- is a parameter. The values of time_t and the fields of a time are not negative in the
-- calendar, in to_str_ and in from_str_.
pub mod Prelude
pub mod Time
pub mod MessageQueue
pub mod Poller
pub mod Server
pub mod Strings
pub mod ActiveObject
pub mod Connection
pub mod SubString
pub mod Ascii
pub mod ThreadRunner
