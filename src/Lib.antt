-- ===== src/Lib.antt =====
-- libpeco: a model of the parts of the library that carry its own logic.
--
-- The program is a cooperative task engine for one thread and the utilities around it. A task
-- has its own stack; its code runs from one switch of context to the next. The loop keeps the
-- tasks that wait for a time in an ordered map, resumes the one whose time has come, and asks
-- the core (epoll or kqueue) for events on file descriptors in between. The calls that a task's
-- code makes (src/task/task.cpp, src/task/loop.cpp) reach the loop
-- (src/task/impl/loopimpl.cpp), which changes the timed list (tasklist.cpp) and the tasks in
-- the cache (basictask.cpp).
--
-- Base holds the shared names, tests on numbers, list functions, byte tables, signed numbers
-- and bit masks. Text models src/basic/stringutil.cpp and stringutil.h: Text.Url its
-- url_encode and url_decode, Text.Base64 its base64_encode and base64_decode, Text.Affix its
-- tests for the start and the end of a string, Text.Split its split and join, Text.Trim its
-- trimming and letter cases. Text.Number is std::to_string and std::stoi, as the C++ standard
-- defines them. A string is a list of its bytes.
--
-- Net models the addresses of src/net: Net.Ip the class ip_t, Net.IpRange the class iprange_t,
-- Net.Peer the class peer_t with is_number of stringutil.cpp; inet_addr and strtod of the
-- system are parameters, of which the theorems suppose what POSIX says of decimal texts.
--
-- Extensions.Redis models src/extensions/redis.cpp: Command the class redis_command, Object
-- and Parse the class redis_object, whose parser takes a reply that arrives in pieces. Reply
-- has the replies of the protocol with their printed form, which is not in the source; a
-- parsed object is compared with it. Extensions.Dns models src/extensions/dns.cpp: the domain
-- names in packets, Packet the packets with their header and questions, Answer their records,
-- and Resolver the class dns_resolver, which follows aliases by at most as many queries as its
-- fuel says; the sockets, time() and what malloc leaves are parameters. Server is a name
-- server made of the functions of dns.cpp, which has none; it is what the resolver is tried
-- on.
--
-- Basic.LruCache models the class template of src/basic/lrucache.h. Basic.FileMgr has the path
-- functions of src/basic/filemgr.cpp, Basic.FilterNode the class template filternode of
-- filternode.h, whose tree is given back by each operation that changes a node in it.
-- Basic.EventTrigger has the class templates of eventtrigger.h: the trigger takes any storage
-- with the laws that Memory states, and et_memory_storage is shown to keep them; a handler is
-- a value, and its calls are noted in order. Basic.Hexdump has the class hexdump of
-- hexdump.cpp with the buffer of a line written byte by byte, isprint being a parameter,
-- Basic.ArgParser the class argparser of argparser.cpp, and Basic.Depend the function template
-- dep_order of depend.h over numbers, with its shared nodes as pairs of items and std::sort as
-- a parameter.
--
-- Task models src/task. Task.Types has the types of taskdef.h and taskcontext.hxx,
-- Task.TaskList the class tasklist, Task.BasicTask the class basic_task, Task.Cache its global
-- cache, Task.Loop the calls of the class loopimpl, Task.Main its main with the handlers that
-- main registers, Task.Api and Task.Accessors the calls of task.cpp and loop.cpp,
-- Task.Semaphore and Task.Signal the classes semaphore and signal with Task.Waiting for what
-- they share, Task.TaskQueue the class taskqueue, Task.LoopCore the cache of fd events of
-- linux/loopcore.cpp, and Task.StackCache the cache of stack buffers in stackcache.cpp.
--
-- Operations have the names of the methods, and take and return the state that the methods
-- change. A pointer to a task is its id, which is looked up in the cache, or among the tasks
-- that have left the cache and that a closure still holds; `none` as the result of a step
-- stands for an assert that fails or a null pointer that is dereferenced, so a theorem that a
-- step yields a result says that neither happens. Each reading of the clock is an argument. A
-- switch to the main context ends the slice of code that made the call: the call's result says
-- whether it returned or switched. What a task's code does in one slice is a list of such
-- calls (Task.Api), or an argument of main (Task.Main).
--
-- Every definition is total, by recursion on a list or a number. The eviction loop of the LRU
-- cache counts its rounds; each removes an item, so the number of items is enough. The loop of
-- split counts its rounds, and the number of bytes is enough if no separator is empty; the loop
-- of the reply parser counts them by the bytes that are left. The reply parser takes the depth
-- that it may descend to: the length of the data plus the nesting of the object, plus one, is
-- enough. dep_order counts the rounds of its queue, of which the number of all dependencies plus
-- one is enough, and the depth of its recursion, of which the longest chain plus one is. Main's
-- outer loop is given as its steps and the decision between them, not as a loop.
--
-- Bounds: ids, flags, counts and file descriptors are 64-bit patterns, with -1 written as 2 ^
-- 64 - 1, and the decrement of a repeat count wraps. A time is a count of nanoseconds of the
-- steady clock and does not wrap. Bytes are numbers, with the hypothesis that they are below
-- 256 where it matters. Of the 514 bytes of a DNS packet that the code makes, 500 are behind
-- the length and the header.
--
-- Not modelled: the stacks and the switch of context itself, the system calls of the core and
-- of the sockets, threads (src/task/shared), the sockets of src/net, the connector of the redis
-- client behind its connection string, and of
-- src/basic the dates, the logs, the readings of the system, any and bufguard.
-- subObjects of redis_object, which is a copy of the vector of sub objects, is left out.
pub mod Base
pub mod Text
pub mod Basic
pub mod Task
pub mod Net
pub mod Extensions
