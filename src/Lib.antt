-- ===== src/Lib.antt =====
-- The operating systems coursework of this repository: the shell of HW1, the system calls of HW2,
-- and the web server of HW3 with its queue of connections.
--
-- The server accepts connections in one thread and puts each, as a message with its meta data,
-- into a bounded queue; a pool of worker threads takes messages out and handles them. When the
-- queue is full, a policy decides: wait (`block`), drop the new message (`dt`), drop the oldest
-- (`dh`), or drop a random quarter of the capacity (`random`). The system calls of HW2 give each
-- process a weight, sum the weights of its descendants, and find the heaviest of its ancestors.
-- The shell `smash` of HW1 reads lines, and runs each as a built-in command, in bash, as a pipe or
-- with its output in a file; it keeps a list of jobs, which `fg`, `bg`, `kill` and `quit` use, and
-- to which Ctrl-Z adds the process in the foreground. The three programs share nothing.
--
-- Which file models what:
-- - Common and its children: numbers, tests, lists, integers and options.
-- - Heap: the memory of the server as a function from addresses to nodes, messages and meta data.
--   A command answers `ok`, `fault` for undefined behaviour, or `out_of_fuel`. Heap/Cells has the
--   list segments of the queue, Heap/Release the memory without a cell, Heap/Segments the ends;
--   Heap/Returns and Heap/Ends are total and partial correctness of a command.
-- - Message: HW3/message.c. The copy of a message shares its meta data, as in the code.
-- - MessageQueue/Types: HW3/message_queue.h, `struct t_message_queue`, `MQCreate`,
--   `stringToPolicy` and the getters. A queue is a record of the struct's members; its mutex is a
--   flag, and each condition variable counts the threads that sleep and those that were woken.
-- - MessageQueue/Random: `getRandomIndexes`. MessageQueue/Drop: the `putHandle…` functions.
--   MessageQueue/Put: `MQPut`. MessageQueue/Get: `MQGet`. MessageQueue/Free: `MQFree`.
--   MessageQueue/Spec: what `MQPut` is to do, over lists with no heap. MessageQueue/Calm: the
--   condition variables between two turns.
-- - ThreadPool: HW3/thread_pool.c. Server: the start of HW3/server.c. Server/Arguments: `getargs`.
--   Server/Accept: the rounds of its accept loop. Server/Worker: the rounds of its workers.
--   Server/Threads: both together, as a step relation, where a thread comes back from a wait after a
--   signal only. The pool has a given number of workers: each is idle, or in `MQGet`, asleep or
--   woken, or busy with a request whose headers have not ended.
--   Request: the decisions of HW3/request.c and its loop over the headers. Request/Ended: requests
--   that are answered. Request/Wire: the bytes it sends. Request/Dots has texts without "..".
-- - Client: HW3/client.c, which sends a request and prints the response.
-- - Weights: HW2/kernel/hw2.c.
-- - Shell/Jobs: HW1/JobsList.cpp. Its children have lists in the order of their identifiers
--   (Order), the references for removal, insertion, replacement and collection, and the operations
--   as steps (Steps). Shell/Text: the text functions of HW1/SmallShell.cpp, over bytes.
--   Shell/Numbers: `strtol` and `atoi`. Shell/Trace: what is printed and called, as events.
-- - Shell/State: the members of HW1/SmallShell.h, the handlers of signals, and what the system
--   answers. Shell/Builtin: the built-in commands, a file of HW1 each; Foreground and Background
--   are children. Shell/External, Shell/Pipe, Shell/Redirection: the files of those names.
--   Shell/Executor: HW1/CommandExecutor.cpp. Shell/Loop: `SmallShell::executeCommand` and
--   HW1/smash.cpp. Shell/Idle: the process in the foreground, over all of these.
--
-- A call of `MQPut` or `MQGet` runs in turns: from its start, or from a wake-up with the mutex
-- held, to its return or to the next `pthread_cond_wait`; a turn is atomic, since it holds the
-- mutex. What comes from outside is an argument: the address or success of each `malloc`, the
-- results of `rand()`, the time, the threads that `pthread_create` makes, the requests and what
-- `stat` finds. That addresses are fresh, and that `rand()` comes to every index, are hypotheses
-- where they are needed.
--
-- A command of the shell is a function of the shell's state, which has the log of its events. The
-- answers of the system are a record of functions, fixed while a command runs; the answers of
-- `fork` are a list in the state, and so are the signals, which handlers serve while the shell
-- waits for a process or, in the loop, before a line is read. A child process is the branch of the
-- code that it runs, until it ends or is bash.
--
-- Rounds: the loop of `MQPut` makes two tests at most, since after a round of `dh` the queue is
-- not full, and every other policy leaves the loop or sleeps; hence `loop_fuel` is 2. `MQFree` has
-- one round for each node and one more. The sum over descendants nests no deeper than their number
-- and one, and the way up to init takes a round for each ancestor. `getRandomIndexes` ends when
-- the draws have come to every index. `requestReadhdrs` makes one test for each line before the
-- empty one and one more; it need not end, so `requestHandle` and a worker's round take the number
-- of its tests, and a request that has no answer within them leaves its worker busy. Each loop of
-- `clientPrint` makes at most one test more than there are lines.
--
-- Bounds: capacities and sizes are `int`s of at least 0 and are natural numbers here; the size of
-- a thread pool wraps at 2^32 as `unsigned int` does. A negative capacity is not modelled. The
-- numbers of jobs and processes are natural numbers, and an argument that is read as an `int`
-- keeps 32 bits.
--
-- Not modelled: printing and logging of the server; HW3/segel.c, a textbook's library that it
-- calls; HW3/output.c, which sleeps and prints; how `sscanf` splits the request line; the
-- registration of the shell's handlers, and signals at other moments than those above; and the
-- kernel's own headers under HW2/include.
pub mod Common
pub mod Heap
pub mod Message
pub mod MessageQueue
pub mod Weights
pub mod ThreadPool
pub mod Server
pub mod Request
pub mod Shell
pub mod Client
