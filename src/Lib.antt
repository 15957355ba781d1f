-- ===== src/Lib.antt =====
-- A model of a web server library that is built on an event manager over io_uring, in three layers.
--
-- The file cache (header/lru.hpp, src/lru.cpp) is `Lru`: a doubly linked list of nodes at addresses,
-- with one definition per method, on a heap that is a function from addresses. A null or dangling
-- pointer is the result `fault`. `Lru/Spec` is what the cache promises, a list of items with the most
-- recently used in front; `Lru/Cells`, `Lru/Find`, `Lru/Unlink`, `Lru/Remove`, `Lru/Promote` and
-- `Lru/Add` are lemmas on linked lists, `Lru/Refines` says when a cache implements a shelf, and
-- `Lru/Refinement`, `Lru/Adding`, `Lru/History`, `Lru/Locked` and `Lru/Destroy` relate the methods to
-- it. A new node gets an address at which no node lives when it is allocated. A traversal runs on `num_items + 1` units of fuel, one more than the list has nodes, and
-- `add_or_update_item` on two, since it calls itself once, after an eviction.
--
-- HTTP text: `CString` is the part of the C library on strings that src/http_request.cpp uses.
-- `Request` is the class http_request of that file: the object as a record, the parsers of its lines,
-- and in `Request/Build` its constructor and destructor. A `char *` into the buffer is the string with
-- its place, and `dangling` is the address that results where the source adds one to a null pointer;
-- the null bytes that `strtok_r` writes show as the ends of the strings. The loops run on one unit of
-- fuel more than the text has bytes. `Request/Split` and `Request/Lines` compare the loops with a split
-- of the text, `Request/Headers` and `Request/RequestLine` say what one line gives, and
-- `Request/Printed`, `Request/Fields` and `Request/RoundTrip` print a request and parse it. `Request/Items` is
-- extract_post_data_items on the bytes of the buffer, where reading outside of it is a fault, and
-- `Request/Total` is about the constructor and the extraction together. `Ranges` is `http_request::get_ranges`,
-- with `atoi` written out (`Base/Decimal`); a header shorter than `bytes=` makes the source copy a
-- negative or an empty range of memory: the result is `none`. `Response` is src/http_response.cpp, with
-- headers as byte lists; SHA-1 and the encoder are arguments. `Base64` is `b64_encode` of
-- src/utility.cpp.
--
-- The server (network_server.hpp) is `Server`: the table of tasks, the cache as a shelf, the contents
-- of the arrays of iovecs, and the history of calls that leave the program. The event manager, the
-- kernel, the allocator and the application are an `Env`, which answers each call by that history.
--   * `Server/Tasks`: get_task, get_task_buff_op, get_task_vector_op, free_task of src/core.cpp.
--   * `Server/Start`: the constructor (src/core.cpp), and the socket of the listener (src/utility.cpp).
--   * `Server/Client`: the methods by which an application starts operations (src/raw_ops.cpp,
--     src/websocket.cpp, src/http.cpp, src/core.cpp).
--   * `Server/Vectors`: vector_ops_progress (src/callbacks/common.cpp).
--   * `Server/SendFile`: src/http_send_file.cpp. It uses the cache by its specification.
--   * `Server/Requests`: http_response_method (src/http.cpp) and network_read_procedure (src/core.cpp):
--     a request is built from the bytes in a buffer, and the body of a POST request is awaited.
--   * `Server/Reads`: read_callback (src/callbacks/read.cpp). `Server/Reads/Parts` is about reads in
--     several parts, `Network` about requests, `Post` and `Body` about the bodies of POST requests,
--     `Whole` and `Protocol` about a POST request whose body comes in parts, from the first read to the
--     application, `Conversation` about a connection from its accept through its requests, and `File`
--     about a file that is read for a client.
--   * `Server/Callbacks`: the other callbacks of src/callbacks, and the dispatch of close callbacks
--     (src/core.cpp). `errno` is an argument of the callbacks.
-- Callbacks run one after another on the event manager's thread, so the server is a sequence of
-- commands on its state. What lies in a buffer is an answer of the `Env`.
-- A call of FATAL_ERROR ends the run with the exit of the program. A reference to a task that is taken
-- before the application is called and used after is undefined behaviour if the table has grown since.
--
-- `Base` holds what the parts share: Boolean tests on native numbers, lists measured by them, 64-bit
-- arithmetic with its wrap-around, byte strings, decimal numerals, and commands that end in a value, in
-- undefined behaviour, for want of fuel, or with the exit of the program. `Tests` holds small runs.
--
-- `Memory` is src/debug_mem_ops.cpp, the count of allocated bytes for debugging.
--
-- Not modelled: logging, print_stats and print_cache_stats, which only print, the sample application,
-- and the submodules. The copy of the bytes that a request makes for itself is allocated and freed
-- within one call, and is not in the history.
-- The mutex of the cache is left out: no method locks it but print_stats. All calls come from the event
-- manager's thread.
pub mod Base
pub mod Base64
pub mod CString
pub mod Lru
pub mod Memory
pub mod Ranges
pub mod Request
pub mod Response
pub mod Server
pub mod Tests
