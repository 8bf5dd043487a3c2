-- ===== src/Lib.antt =====
-- cclab: a collection of C and C++ components. Modelled are the message queue in shared memory
-- (shmmq/), the hash table (hashtable/), the function that takes tags out of a text
-- (php_strip_tags/), the cache of resources (resource_cache/), the demonstration server of ae/main.c,
-- the documents of s3xml/,
-- and of the HTTP server (httpserver/) the buffer of bytes, the context of a connection and the
-- connection itself. Only the parts of the HTTP server call each other: a connection hands what it
-- reads to the context (Tcp, Http), which keeps it in a buffer (Iobuf) for the parser.
--
-- Base. Numbers, lists and tests; Base/Pointers: addresses and lists of them; Base/Ring: circular doubly
-- linked lists, which Iobuf and ResourceCache use; Base/Bytes: memory and `memcpy`.
--
-- Shmmq, shmmq/shmmq.c and shmmq/semutil.c. A queue of fixed slots stands in a System V shared
-- segment behind a head of two 32-bit counters; a semaphore guards it.
--   Shmmq/Code: the error numbers, `errlist` and `shmmq_get_errstr`.
--   Shmmq/Segment: the content, the head, and what `shmmq_enqueue` and `shmmq_dequeue` do between the two
--     semaphore operations (push, pop).
--   Shmmq/Queue: the bounded FIFO that the segment is compared with.
--   Shmmq/Slots, Shmmq/Refine, Shmmq/Trace: the items that a segment holds, one critical section,
--     and sequences of them.
--   Shmmq/Processes, Shmmq/Interleaved: any processes between `semaphore_p` and `semaphore_v`, access by access, as a step
--     relation; a `memcpy` is one access, and a
--     process that dies inside is not modelled. Shmmq/Sections: whole critical sections, and parts of one.
--   Shmmq/System: the system calls as a record `Ipc` of functions on a world, the static variables
--     as a record `Globals`, and commands that may be undefined. Nothing is assumed of the calls but
--     what a theorem names.
--   Shmmq/Semaphore (semutil.c), Shmmq/Lifecycle (`shmmq_open`, `shmmq_close`), Shmmq/Transfer
--     (`shmmq_enqueue`, `shmmq_dequeue`, `shmmq_clear`, the accessors of the counters).
--   Shmmq/Locking, Shmmq/Ensures, Shmmq/Balance, Shmmq/Lifetime, Shmmq/Overflow: theorems about
--     whole calls.
-- `Fits mqsize itemsize` says that the queue has a slot, that mqsize divides 2^32 and that the
-- content's size is an `int`. `IsValid` says that the counters are words, at most mqsize - 1 apart.
-- An access to an unmapped segment, an overflow of an `int`, and a `memcpy` beyond the caller's
-- buffer are `none`.
--
-- Hashtable, hashtable/hashtable.c and hashtable/hashtable.h. A table of 2^16 chains whose items also
-- form a doubly linked list in the order of insertion.
--   Hashtable/Store: the table, and the heap of items as one function for each field; the operations
--     on single items and `hashtable_init`.
--   Hashtable/Lookup: `hashtable_find`, `hashtable_insert`, `hashtable_remove` and
--     `_hashitem_before`. Hashtable/Traverse: `hashtable_clear`, `hashtable_destroy`,
--     `hashtable_apply` and `hashtable_apply2`.
--   Hashtable/Lists, Hashtable/Relink, Hashtable/Before: linked lists and what a write does to them.
--   Hashtable/Valid: `IsValid hash s ps`, the table `s` holds the items `ps`, in this order: each in
--     the chain of its bucket, all in the doubly linked list, allocated, with different keys, and
--     counted. Hashtable/Append, Hashtable/Detach: an item is added or taken out.
--   Hashtable/Insert, Hashtable/Remove, Hashtable/Init, Hashtable/Clear, Hashtable/Apply: the
--     functions.
-- The hash function, a copy of Bob Jenkins' code, is a parameter; `ReadsKey` says that it depends on
-- the key's first nkey bytes alone, as its documentation does. The loops over a chain and over the
-- list run on hash_items + 1 rounds; a run out of fuel is `none`, and so are an access to an item that
-- is not allocated and a call of a `free_func` that is not set. A comparison that would read beyond the bytes
-- that are given of a key finds the keys different. The loops of `hashtable_apply` and `hashtable_apply2`, whose callback may change
-- the table, take their fuel as an argument.
--
-- StripTags, php_strip_tags/php_strip_tags.c. `php_strip_tags_ex` reads a text character by character,
-- in one of five states, and keeps what stands outside of tags and the tags that are allowed.
--   StripTags/Tag: `php_strtolower`, `php_tag_find`, and `tolower` and `isspace` of the C locale.
--   StripTags/Machine: the variables of the loop and the writes through its pointers.
--   StripTags/Handler: the cases of the switch. StripTags/Strip: the switch, the loop, the function.
--   StripTags/Within, StripTags/Cases, StripTags/Safety, StripTags/Plain, StripTags/Clean: theorems.
-- Characters are their codes. The characters before the current one are a list, nearest first; a read
-- before the text or behind its copy, a write behind the tag's buffer or behind that of its normalization, an
-- `allow_len` beyond the NUL of `allow`, and a tag without its end are `none`. The loop is a recursion on
-- the text.
--
-- ResourceCache, resource_cache/resource_cache.h. A map from keys to items that stand in a ring in the
-- order of their last `Set`; a full cache evicts the last of them.
--   ResourceCache/Store: the items, the fields of the class and the functions that relink the list.
--   ResourceCache/Ops: the constructors, `Get`, `Set` and the destructor.
--   ResourceCache/Spec: the cache as a list of entries. ResourceCache/Valid: the invariant.
--   ResourceCache/Reads, Refresh, Writes, Set, History: `Get`, a `Set` of a key that is there, of a new
--     key, of any key, and sequences of calls.
-- The clock is a parameter, and so is the comparison of keys. An assertion that fails and a `delete` of
-- what `new` did not give are `none`.
--
-- Iobuf, httpserver/iobuf.h and httpserver/iobuf.cc. A buffer of bytes is a ring of blocks; a block points
-- to a part of a buffer of memory with a count of references.
--   Iobuf/Heap: blocks and memory, and the methods of `Block`. Iobuf/Blocks: `IOBuf`, and how it links and
--     unlinks blocks. Iobuf/Ops: its loops. Iobuf/Scan: its functions that only read.
--   Iobuf/Valid: `IsValid io h ps`, the buffer holds the blocks `ps`, no two of which share memory, and
--     counts their bytes. Iobuf/Link, Iobuf/Move: blocks are popped, appended and moved.
--   Iobuf/Room, Iobuf/Fill, Iobuf/Append: memory behind the bytes, bytes that are written there.
--   Iobuf/Trim, Iobuf/TrimEnd, Iobuf/Cut, Iobuf/Split, Iobuf/Read, Iobuf/Destroy: the functions.
--   Iobuf/Share: the memory that the two buffers of a `Split` have in common.
-- The loops run on fuel; theorems ask for more rounds than the buffer has blocks, or two for `Append`,
-- and prove that these are enough. `none` is an assertion that fails, an access to a block that is gone,
-- or that the fuel has run out. `new` and `malloc` do not fail.
--
-- Http, httpserver/http_server.h and httpserver/http_server.cc.
--   Http/Strings: strings and maps between them. Http/Context: `HttpContext` and the callbacks.
--   Http/Url, Http/Headers: the callbacks of a URL and of a header. Http/Parse: `HttpContext::Parse`, over
--     the parser as a parameter, which takes bytes and gives how many it has parsed.
--   Http/Answer: the parser as one that makes calls, the table of callbacks, `HttpContext` as a whole, and
--     what `OnComplete` writes. Http/Serve, Http/Exchange: a connection with its context and the parser.
-- Tcp, httpserver/tcp_server.h and httpserver/tcp_server.cc.
--   Tcp/Connection: `TcpConnection`. Tcp/Server: the callbacks of `TcpServer` and `HttpServer`, and the
--     ends of the socket's operations as a step relation. Tcp/Reads, Tcp/Writes, Tcp/Waiting: reads, writes
--     and the writes that wait. Tcp/Acceptor: `TcpServer` with its acceptor and its connections; their
--     handlers run one at a time, in any order.
-- A socket takes any part of a write; what stands in the arrays at first is an argument.
--
-- Echo, ae/main.c: a demonstration server over the event library. Echo/System: the system calls and the
-- event library as a record of functions on a world. Echo/Server: the functions. Echo/Send: the loop of
-- `non_block_send`, on fuel; one round more than there are bytes and calls that fail
-- in passing is enough.
--
-- S3xml, s3xml/s3_xml.h and s3xml/s3_xml.cc. Documents of S3's answers over rapidxml, which is not part of
-- the repository.
--   S3xml/Rapidxml: strings in memory, and rapidxml as a record `Rapidxml` of functions on a document.
--   S3xml/Laws: `IsRapidxml`, what its manual says of them. S3xml/Ops: `S3XmlNode` and `S3XmlDoc`.
--   S3xml/Build, S3xml/Append, S3xml/Document: documents are built. S3xml/Search, S3xml/Find, S3xml/Fill,
--     S3xml/Read: nodes are searched.
-- rapidxml does not copy the strings that it is given: a node has the addresses of its name and value.
-- An assignment to a `std::string` ends what its `c_str()` was, as the language's standard allows; a read
-- through such an address, an assertion that fails and an access through null are `none`. There is one
-- document, and `IsAlive` says that a node is there with its children, each pointing to strings
-- that have been given. The destructors are not modelled, so that a node's strings live until they are
-- assigned to.
--
-- Not modelled: the copies of other projects (ae/ae.c, ae/zmalloc.c, httpserver/http_parser.cc,
-- hashtable/hash.c), the programs that only call the components (shmmq/test/, hashtable/main.c,
-- php_strip_tags/main.c, resource_cache/main.cc, resource_cache/rc.cc, httpserver/main.cc,
-- s3xml/main.cc), and handlers of one connection that run at the same time on two threads of `TcpServer`.
pub mod Base
pub mod Shmmq
pub mod Hashtable
pub mod StripTags
pub mod ResourceCache
pub mod Iobuf
pub mod Http
pub mod Tcp
pub mod Echo
pub mod S3xml
