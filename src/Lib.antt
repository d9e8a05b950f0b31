-- ===== src/Lib.antt =====
-- piggy_engine, a full-text search engine: its codecs, its iterators and scorers, and its analyzer.
--
-- The program analyses a text into terms (modules/analysis), keeps for each term the ascending ids
-- of its documents, in memory (modules/memory) or in PForDelta blocks with a skip list
-- (modules/codec), which modules/store reads from the files of a segment, and answers a query with
-- a tree of scorers over the posting iterators of a segment (modules/query), which the search loop
-- of modules/query/src/index_searcher.cpp drives.
--
--   Core       modules/core/include/core/types.h
--   Codec      PForDelta.Pack (packBits, unpackBits), PForDelta.Width (chooseBitWidth),
--              PForDelta.Block (the body of compress, decompressBlock, blockByteSize) and
--              PForDelta.Stream (compress, decompress) of modules/codec/src/pfor_delta.cpp;
--              SkipList, modules/codec/src/skiplist.cpp
--   Query      Cursor, the abstract classes Scorer and IPostingIterator as records of operations with
--              their contract IsCursor; Conjunction, Exclusion and Term, the scorers of that name
--              (modules/query/src/*_scorer.cpp); Search, the loop over the root of the tree,
--              Search.Terms and Search.Zigzag, the terms and the loop of searchAND, and Search.Merge,
--              mergeTopK; Boolean, modules/query/src/boolean_query.cpp; Parser,
--              modules/query/src/query_parser.cpp; Wand, the constructor of a WANDScorer with runWAND,
--              and Wand.Iteration, its hits, modules/query/src/wand_scorer.cpp
--   Store      InputFile, what the readers use of std::ifstream; PostingIterator, the iterator over
--              the blocks of a file, modules/store/src/posting_iterator.cpp; PosIterator,
--              pos_iterator.cpp; PostingList, posting_list.cpp of the same directory
--   Memory     PostingIterator, modules/memory/src/memory_posting_iterator.cpp; FlushQueue,
--              flush_queue.cpp; SegmentArena and StringArena, segment_arena.cpp; TermHashTable,
--              term_hash_table.cpp of the same directory; Realtime, the life of a segment from
--              addDocument to the commit of its batch: realtime_index_manager.cpp, rt_index_thread.cpp,
--              flush_worker.cpp, and the readers that the searcher keeps
--   Common     BlockingQueue, modules/common/include/common/blocking_queue.h
--   Analysis   Analyzer, modules/analysis/src/analyzer.cpp
--   Examples   the theorems at concrete inputs
--
-- A method that changes its object returns the new state beside its result. The state of a cursor
-- is a type of its own; `pending` is the abstract view, the documents from the current one on. The
-- contract IsCursor says of next and advance what they do to that view; MemoryPostingIterator, the
-- PostingIterator of a file, TermScorer, ConjunctionScorer, ExclusionScorer and WANDScorer keep it,
-- each given that its parts do, so a tree of scorers does. Strings and buffers are lists of bytes;
-- a pointer into a buffer is the rest of its list. Words are natural numbers, and arithmetic that
-- can wrap is written modulo 2 ^ 32.
--
-- Threads are interleavings: a call of a queue holds the mutex, so what threads do is a list of
-- calls, of which those that wait change nothing and are tried again. In Memory.Realtime a call of
-- addDocument is one step, the flush worker takes a batch or commits it between the calls, and so
-- it does between the shutdowns of the threads in stop. A segment in memory is the list of its
-- documents with their ids; when it is full enough to be frozen is a parameter, and bad_alloc of an
-- arena is not modelled. What flushToDisk and mergeAll write is left out: a commit puts the reader
-- of a segment on disk, known by its id only, in the place of the readers of its batch, and the
-- history of the commits, which only the theorems read, says which documents these had.
--
-- Loops that do not follow a list run on fuel: one round per document in compress (each round takes
-- one at least), one per byte in decompress (each block has a header), one per character in
-- tokenize, one per bucket in findSlot (as the source has it), one more than remaining_ in the loop
-- over loadNextBlock (each block that is loaded takes from it), one more than the length of the
-- queue where the flush worker drains it, and 2 ^ 32 in the scorers and the search, where each
-- round moves a cursor on and there are fewer documents than ids, in runWAND that many for each
-- child. The theorems on these functions hold for the functions with this fuel.
--
-- Parameters: the constructors of scorers that a query tree calls (Query.Boolean); the order of
-- std::sort in mergeTopK, and in searchAND that of the terms; the dictionaries and posting lists
-- that searchAND asks a SegmentReader for; std::sort and std::priority_queue of Wand, with what
-- they promise, and which documents are alive and pass the filter; float, its operations and
-- literals (Query.Floats; a float that is only stored is its bit pattern); the segment reader that
-- a TermScorer asks (Query.Term); the four bytes of padding in a skip node. `isalpha` and `tolower`
-- are those of the "C" locale.
--
-- Not modelled: the order that std::sort gives the children of a conjunction (the theorems hold for
-- each order) and the results; the truncation of a search's results to top_k behind the loop over
-- the scorer tree; the search modes of index_searcher.cpp beside that loop and searchAND; the
-- scores of searchAND; the pages of a segment in memory, and what a flush and a merge write; the
-- writers, mergers and readers of segments, schema and columns, files, the tools and the tests.
pub mod Prelude
pub mod Core
pub mod Common
pub mod Analysis
pub mod Codec
pub mod Query
pub mod Memory
pub mod Store
pub mod Examples
