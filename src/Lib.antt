-- ===== src/Lib.antt =====
-- A library of C and C++ utilities: memory, arrays, rings, encodings, streams, parsers, tasks and a
-- web server. The development models its self-contained parts in C and in headers, one folder of
-- modules for each. The allocator stands in for malloc and free of programs that include its
-- header; the C array takes malloc from the C library, the C reader collects its bytes in a C
-- array, and the key generator uses the character classes.
--
-- Memory.Heap models lib/memory/heap.h and lib/memory/heap.c: memoryHeapPush, memoryHeapPop and the
-- three conditions that memoryHeapPop is called with. A list of nodes stands for the nodes that a
-- root pointer reaches by `child`; the statements that only log are left out.
-- Memory.Alloc models lib/memory/emalloc.h and lib/memory/emalloc.c: initializeData, emalloc (with
-- its second half take_block) and efree (with its second half give_back). The state is the two
-- lists of blocks. A pointer is its offset in dynamic_memories, which is also the index of the
-- block's node in `nodes`, so two blocks at one index would share a node, which the invariant
-- excludes. The invariant is in Memory.Alloc.Tiled: every address of the memory is in exactly one
-- block of the two lists, the blocks are not empty, and the lists are ordered by size.
-- DYNAMIC_MEMORY_SIZE is a parameter, below 2^16 except where the default is the subject.
-- RingIndex models lib/ringindex.h: sArrayInit, sArrayAdd, sArrayRemove and sArraySize, with the
-- wrap of size_t. RingIndex.Slots gives the list of the slots in use.
-- Base64 models base64Encode and base64Decode of lib/base64.h. The size of the input is converted
-- to int; a loop from a negative counter is undefined. The counter `i` and the scratch arrays are
-- data types whose constructors say how many values are held back.
-- CArray models lib/c/array.h and lib/c/array.c over lists of bytes. Each operation gives a result
-- code and the array after it, or nothing when a memcpy would leave its buffers. malloc is a
-- parameter; what is relied on is that a buffer has the length asked for. The factor 1.75 of
-- resize_buf is exact in double for counts below 2^50, which the theorems ask for.
-- CReader models lib/c/reader.h and lib/c/reader.c: fill_buffer, cursor_check, reader_read_bytes,
-- reader_read_until, reader_peek_for_empty_line and, in CReader.Chunk, read_chunk_non_blocking_fd.
-- A descriptor is the list of the chunks that arrive and what read does behind them; the array that
-- is returned is the list of its elements. malloc is taken to succeed there, and char to be signed.
-- The loops run on fuel, since the descriptor decides how often they turn; enough is more than the
-- bytes outside the buffer for reader_read_bytes, more than the bytes before the delimiter for
-- reader_read_until, and 10101 for read_chunk_non_blocking_fd, whose time limits are counts of
-- turns. CReader.Pending has the bytes still to be given.
-- StringUtils models the character classes of lib/string_utils.h.
-- KeyGenerator models lib/key_generator.h: valToHexCharArray, UniqueKeyGeneratorStore::refresh, the
-- constructor, destructor, next and nextAsInteger of UniqueKeyGenerator, and initialize and next of
-- UUIDGeneratorV4. The store has a path, so that it writes its file, which is the list of its
-- bytes, the random words are a list; an exception is no result.
-- Arrays models Array of lib/datastructures/array.h over lists of slots: in Arrays.Merge
-- nlognsortMerge, in Arrays.Sort nlognSort and sort, in Arrays.Edit insert, append and remove, in
-- Arrays.Lookup at, front, back, find, contains, operator==, uniqueAppend and removeEl. `==` and
-- `>` of the elements are parameters, which the theorems on order take to be those of a total
-- order. new is a parameter; what is relied on is that a buffer has the length asked for. The slots
-- that a removal frees keep their elements in the model.
-- EStream models EStream<uint8_t> of lib/estream/estream.h (good, fillBuffer, peek, get, unget and
-- streamCollect without a task), EStream.Criteria the criteria of lib/estream/estream_types.h and
-- lib/estream/byteestream.cpp, EStream.Collect the reads of texts and natural numbers. What poll
-- and read answer is part of the state. streamCollect runs on fuel, since its end hangs on the
-- elements; more than the elements that are read is enough.
-- Calendar models lib/etime.h and lib/etime.cpp, Calendar.Fields getFormattedDateTime of
-- lib/ecal.cpp up to the formatting of the fields, Calendar.Parse the parsers of lib/ecal.cpp,
-- which read a stream over the text. The loops over years and over leap years run on fuel, because
-- their 16-bit years can go round; as much as the 365-day years of the time, or a quarter of the
-- 16-bit years, is enough.
-- ConnectionTimer models lib/web/server_connection_timer.h: closeConnection, removeConnection, one
-- round of timerProcess, timerSetTimeout, timerGetTimeout, timerAddConnection and
-- timerRemoveConnection, on a memory of nodes with the mutex as a flag. The calls are taken one
-- after the other; the loops run on fuel, of which more than the connections is enough.
-- ConnectionTimer.Linked has the list that the pointers make.
-- Common has the shared names, the Boolean tests on numbers, and the lemmas on lists.
--
-- nlognSort's loops double or add their span and run on fuel of more than the size. Every other
-- loop of the modelled code is a structural recursion over the list that it walks or the number of
-- turns that it takes, without fuel. Machine integers keep their wrap-around: uint16_t and uint32_t
-- in the allocator, size_t in the ring and the array, uint64_t in the key generator, and the cast
-- to char in the decoder. The counts of the C reader stay within its buffer and do not wrap, nor do
-- the indices of the sort and the shifts, which stay below the size of the array.
--
-- Not modelled: the generator of version 7 keys, the formatting of strings and of times, the reads
-- into arrays and with a task, the shared handles to arrays, the matrix templates, the parsers,
-- tasks and threads, the web server and files. Input and output, logging, threads, sockets and the
-- shims for one compiler have no model; the programs under cing/, cpping/, etimeout/ and http_test/
-- are trials and examples.
pub mod Common
pub mod Memory
pub mod RingIndex
pub mod Base64
pub mod CArray
pub mod StringUtils
pub mod KeyGenerator
pub mod CReader
pub mod Arrays
pub mod EStream
pub mod Calendar
pub mod ConnectionTimer
