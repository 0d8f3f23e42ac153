-- ===== src/Lib.antt =====
-- Azurite: an emulator of Azure Storage's blob, queue and table services.
--
-- A request to the blob service passes the generated protocol layer, a handler of
-- src/blob/handlers, and the metadata store of src/blob/persistence, which checks the request's
-- conditional headers and the lease of the blob before it changes a document. The bytes themselves
-- are kept in extents; a document only names extents and offsets. This library models ten parts:
--
-- * Conditions (src/blob/conditions): the adapters that split and strip etags, and the validators
--   of reads and writes. Conditions/Model has the adapters, Conditions/Read and Conditions/Write
--   have the validators (read_validate, write_validate, validate_combinations,
--   validate_sequence_number are the methods of those names), Conditions/Laws what they let pass.
--   The query of a tag condition is a parameter, tags_match, which query_matches of Tags fills.
--
-- * Lease (src/blob/lease, and the lease operations of
--   src/blob/persistence/LokiBlobMetadataStore.ts). ILease is a record of options. The five state
--   classes are the five constructors of LeaseState, their TypeScript constructors, which check
--   their argument, are new_available to new_expired (Lease/State), and Lease/Available,
--   Lease/Leased, Lease/Breaking, Lease/Broken and Lease/Expired have their operations, which
--   Lease/Operations dispatches. Lease/Sync has the adapters and the syncers, Lease/Validators the
--   validators, and Lease/Blob what the store does: the document is passed and returned, and where
--   the code throws after it has written to the shared document, the written document is what is
--   left; Lease/Container has the lease operations on a container and what guards its deletion.
--   Lease/Validity states the tables in the comments of the constructors; Lease/Factory,
--   Lease/Preservation, Lease/Stored, Lease/Visits, Lease/Containers and Lease/ContainerVisits
--   show that they are kept, and Lease/Diagram, Lease/Ownership, Lease/Protection, Lease/Deletion
--   and Lease/Timing what a lease means.
--
-- * PageRanges (src/blob/handlers/PageBlobRangesManager.ts): which extents hold the pages of a
--   page blob. PageRanges/Search has the two binary searches, PageRanges/Manager the four
--   operations; PageRanges/Scan and PageRanges/Find show what the searches find,
--   PageRanges/Passes, PageRanges/Reference and PageRanges/Middle that the operations are single
--   passes, PageRanges/Content, PageRanges/Cut and PageRanges/Fill what they mean byte by byte,
--   and PageRanges/History what a run of them leaves.
--
-- * Extents (src/common/persistence/MemoryExtentStore.ts): MemoryExtentChunkStore, the chunks that
--   are kept in memory under a limit. Extents/Chunks has its methods, over JavaScript's Map as an
--   association list (Prelude/Maps), Extents/Sizes and Extents/Runs that its sizes are right over
--   any run of calls, and Extents/Reads what is read back.
--
-- * Tags (src/blob/persistence/QueryInterpreter): the language of x-ms-if-tags conditions and of
--   Find Blobs by Tags. Tags/Scanner is ParserContext, Tags/Tokens the keys and values,
--   Tags/Comparisons what the parser notes of the tags, Tags/Parser QueryParser, whose methods
--   have their names, Tags/Evaluate the evaluation of the nodes, and Tags/Query
--   QueryInterpreter.ts. Tags/Consumed, Tags/Ranges, Tags/Visits, Tags/Enough and Tags/Sound are
--   about parsing in general, Tags/Characters, Tags/Leaves, Tags/Reading and Tags/RoundTrip about
--   the queries that Tags/Printer writes, Tags/Meaning about evaluation, and Tags/Answers about a
--   whole query.
--
-- * Common (src/common): the queue of operations (Common/OperationQueue) and the lock of a key
--   (Common/Mutex). What happens in which order is a list of events (Common/Events): calls, the
--   ends of operations, and callbacks of the event loop. Common/QueueWork and Common/QueueRuns are
--   about any run of a queue, Common/MutexServing, Common/MutexRuns and Common/MutexHolders about
--   any run of a lock's callers.
--
-- * Listing (src/blob/persistence/PageWithDelimiter.ts, and the readers of listBlobs and
--   filterBlobs in LokiBlobMetadataStore.ts): Listing/Page is the class, a reader is a function of
--   the offset, and Listing/Blobs has the two readers, over the list of documents that the
--   database gives for the other conditions, sorted. Listing/Order and Listing/Strict are about
--   names in order, Listing/Shows, Listing/Adds, Listing/Taken, Listing/Fill and Listing/Pages
--   about one page, Listing/Resume about the pages after it and Listing/Filter about filterBlobs.
--
-- * Table (src/table/persistence/LokiTableMetadataStore.ts,
--   src/table/batch/TableBatchOrchestrator.ts): the entities of a table and batches of writes.
--   Table/Entities has the properties of an entity and how a merge puts two together,
--   Table/Database LokiJS as a parameter, the record Loki, with what is relied on as the laws
--   LokiLaws, Table/Store and Table/Writes the store's methods with the trackers of a batch,
--   Table/Transactions the end of a batch, and Table/Batch the orchestrator: the session is its
--   state, the argument check stands for what the handlers check before they call the store, and a
--   request has the keys it gives. Table/Spec and Table/BatchSpec say what a batch promises;
--   Table/Position, Table/Rows, Table/Refinement and Table/Operations are about one write,
--   Table/Undo, Table/Recorded, Table/Rollback and Table/BatchRecorded about taking writes back,
--   Table/Claims, Table/Routes, Table/Loop and Table/Atomicity about a batch, and Table/Merge
--   about merged entities.
--
-- * Queue (src/queue/persistence/LokiQueueMetadataStore.ts, src/queue/handlers): messages.
--   Queue/Messages has the documents and the database as a parameter, MessageDb with the laws
--   MessageDbLaws, Queue/Store the store's methods, and Queue/Handlers what MessagesHandler and
--   MessageIdHandler check and compute. Each takes the time of the request, and the receipt that
--   it is to give, as arguments. Queue/Operations is a run of such calls; Queue/Keys,
--   Queue/Hidden, Queue/Visibility, Queue/Protection and Queue/Receipts are about a message that
--   was handed out, Queue/Times and Queue/Requests about the handlers.
--
-- * Gc (src/blob/gc/BlobGCManager.ts, src/queue/gc/QueueGCManager.ts): the sweep of the extents
--   that nothing refers to. Gc/Manager has markSweep of both, up to the call of deleteExtents,
--   which leaves out the extents that are being written, with the status as a function of the test
--   that reads it, since close() can come at every await. Gc/Iterators has the iterators over a
--   collection of the database, page by page, which the queue service uses, with the database's
--   find as a parameter, Gc/Sweep is about what is swept of an iterator's results, and Gc/Paging
--   about the results.
--
-- Methods is the state and error monad of Table and Queue. Code that throws returns a Result
-- (Errors); a RangeError, a TypeError or a plain Error is a failure of the program, every other
-- error an answer of the protocol. Times are milliseconds (Dates): `new Date` of a time more than
-- 8.64e15 from 0 is the invalid date, which a lease's times can come to. uuid() is a parameter of
-- the operations that call it. Lease durations and break periods are integers, and so are the
-- visibility timeouts, times to live and numbers of messages of the queue service, which its
-- parser reads with parseFloat. The binary searches run on fuel, the number of indices that are
-- left, which each call at least halves; PageRanges/Find shows that they find what they look for
-- on this fuel. The parser of tag queries runs on four calls for each character and four more;
-- Tags/Enough shows that this is enough for every query. The loop of a page's fill runs on one
-- step for each document. The results of an iterator are those of a number of calls of next(), of
-- which one more than there are documents is enough.
--
-- Not modelled: the blob store's operations beside leases and lists, the SQL store, which is
-- queries, the handlers beside those named, authentication, the stores that fill the extents,
-- queues, tables and their access policies, queries over entities, the generated protocol layer,
-- and the servers: they are glue over a database or a stream, generated code, or need a library
-- that is not in the repository; the block lists of a blob and the queries over entities have
-- logic of their own that this library does not have yet.
pub mod Prelude
pub mod Errors
pub mod Dates
pub mod Conditions
pub mod Lease
pub mod Tags
pub mod PageRanges
pub mod Extents
pub mod Common
pub mod Gc
pub mod Listing
pub mod Methods
pub mod Queue
pub mod Table
