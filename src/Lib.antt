-- ===== src/Lib.antt =====
-- The device broker: a service that takes requests over HTTP, runs one task at a time on its own
-- thread, takes the messages of a task from a message queue, and passes each message through a
-- download, a run and an upload on thread pools.
--
-- The files, by the part of the program that they model (paths below src/target/o_pocket):
--   SafeQueue      context/threadpool/safe_queue.hpp: the bounded queue, one function for each method
--   Semaphore      context/threadpool/semaphore.hpp: the counting semaphore and its scope guards
--   Threadpool     context/threadpool/threadpool.hpp: workers, enqueues and turns over a SafeQueue;
--                  Threadpool/Monitor has its LoopMonitor and the timer of taskinfo.hpp
--   TaskSuit       context/task_suit, the filter of context/threadloop/threadloop_objective.cpp and
--                  signal/signal_handle.h: the slot from which the service thread takes its task
--   Threadloop     context/threadloop/threadloop_base.cpp: the loop of the service thread
--   Requests       context/http_handle/http_body_cvt.h: the bodies of requests and messages
--   TaskStatus     context/logic/objecitve/task_status.h: the flags of the task and of the device
--   Objective      context/logic/objecitve/logic_impl_http_service_objective.{h,cpp}: Objective has
--                  the three entities, Objective/Poll the loop that takes messages, Objective/Control
--                  the load, the run and the termination of a task, Objective/Kill the killing of
--                  processes, Objective/Pipeline the two pools at work
--   Messages       io/message_manager.h: the queue between the connection's thread and the poll
--   Sqlite         io/sqlite.{h,cpp}: a database file and its connection
--   MessageBus     context/threadpool/message_bus.hpp: channels and their listeners
--   ErrorCode      error/errorcode.{h,cpp}: errors that report themselves, and their facilities
--   HttpService    context/http_handle/http_service_handle_objective.cpp: the routes and handlers
--   HttpServer     http/http_server.{h,cpp}, http/http_handler.{h,cpp}: launch and stop, the routers and
--                  the callback that asks them
--   FileSystem     filesystem/filesystem_impl.inl: the file operations; FileSystem/Move has move_file,
--                  FileSystem/Throwing the monad of code that may throw, FileSystem/Steps the
--                  numbering of failures that file operations and connections share
--   Archive        compress/miniz_impl.inl: writing and unpacking archives
--   FileOpt        context/logic/logic_impl_file_opt.cpp and io/http_transfer.cpp: downloads, moves and
--                  queries; FileOpt/Jobs has the file jobs of context/logic/file_opt
--   TestbedParam   context/logic/objecitve/testbed_param.h: the folders of a task; TestbedParam/Command
--                  its command, TestbedParam/CmdParser testbed_cmd_parse.{h,cpp}
--   RabbitMq       io/rabbitmq_handle.{h,cpp}: the connections to the message broker
--   SystemCall     common/system_call.cpp: commands and the thread that records their output
--   Samba          io/samba_transfer.{h,cpp}: Samba has the downloads, Samba/Walk and Samba/Paths the
--                  walks over a folder of the share and of the disk, Samba/Upload the uploads;
--                  Samba/Fetched follows a download of a folder on the disk of Samba/Disk
--   LoopRate       common/loop_rate_control.inl: a loop held to a rate
--   TimeTick       common/time_tick.inl: a countdown on a thread of its own
--   Broker         context/logic/logic_impl_service.cpp and the closures of the handlers: Broker has the jobs
--                  and a round of the service thread over all of the above, Broker/System the threads in any
--                  interleaving
-- Prelude has the numbers, lists and tests that they share. The other files below a part prove what
-- their names say; the files named Tests apply it to concrete inputs.
--
-- How the parts interact: the callback of HttpServer asks the routers, one of which is HttpService,
-- of which a handler posts a job to the slot of TaskSuit, which the Threadloop's thread takes; the
-- job of an objective is Objective/Control's run_objective, which polls Messages and enqueues each
-- message as a task of the download pool; Objective/Pipeline runs the two pools, whose queues are
-- SafeQueues, and each worker calls one entity of Objective. An update's job runs the downloads of
-- FileOpt, and the file jobs those of FileOpt/Jobs, over FileSystem and Archive; a worker's message
-- becomes the folders and the command of TestbedParam; the thread of Messages receives through
-- RabbitMq. Broker puts these together.
--
-- How the code corresponds: an operation under a mutex is a function from the state before to its
-- result and the state after. A wait is read at the moment that it ends: a function answers `none`
-- while the predicate of the wait does not hold, and the timed version takes the branch of the
-- time-out. Interleavings of threads are step relations whose steps are these functions. An `int` is
-- ℤ; where the code converts it to size_t or may overflow (Semaphore) the conversion is written out,
-- and where it cannot in a run the counters are plain. What a library outside the repository answers
-- (JSON, RabbitMQ, Samba, `system`, the clock) is an argument. <filesystem>, miniz, mongoose,
-- libsmbclient and the HTTP client
-- are records of functions on a state that is not looked into, one field for each function that is
-- called; what theorems rely on is stated as laws, and the tests have a disk in memory that keeps them.
--
-- Fuel: the loop of Threadloop takes fuel for its checks, and n + 1 checks are enough when the stop
-- comes at the n-th; the search of Threadpool/Resize takes fuel, and none is enough; the destructor
-- of Messages takes one round more than there are messages. The search of FileSystem/Move for a name
-- that is free takes one round more than there are names taken; the moves of files need none. The loop
-- of SystemCall takes fuel for its checks, as those of Threadloop and of HttpServer do. The ten digits of
-- TestbedParam/Text are those of an `int`.
--
-- Objective/Poll takes an enqueue as done at once; that it waits while the download pool's queue is full is
-- in Objective/Pipeline. http_service_objective, which starts and ends the service, is left out: its join
-- waits on the service thread, whose end Broker/Stop is about.
--
-- Not modelled: the login to a share, parsing of JSON, start-up, logging and the service for the other
-- device. The transfers of FileOpt and of Objective stay arguments there, not the functions of Samba.
-- What a handle of an archive or of a connection to RabbitMQ holds open is not tracked, and a file's
-- content is not written byte by byte, but for the copies of Samba, which are loops over
-- buffers. Data races on plain counters are outside these models; SafeQueue/Wakeups has the wake-ups of the threads that wait for an item or for room.
pub mod Broker
pub mod FileSystem
pub mod Archive
pub mod FileOpt
pub mod TestbedParam
pub mod RabbitMq
pub mod SystemCall
pub mod LoopRate
pub mod Samba
pub mod Prelude
pub mod SafeQueue
pub mod Semaphore
pub mod Threadpool
pub mod TaskSuit
pub mod Threadloop
pub mod Requests
pub mod TaskStatus
pub mod Objective
pub mod Messages
pub mod HttpServer
pub mod HttpService
pub mod ErrorCode
pub mod MessageBus
pub mod Sqlite
pub mod TimeTick
