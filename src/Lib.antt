-- ===== src/Lib.antt =====
-- godynamo: a Go library for single-table designs on DynamoDB. A struct type that embeds `Model`
-- has a partition key and a sort key, which a tag on the embedded field describes; over such types
-- there are single-item operations, batches, transactions, queries, scans and statements.
--
-- The parts, and the files that model them:
--   Tags, Tags/Parsing, Tags/Cache: tags.go, the tag grammar and its cache
--   Reflect, Reflect/Laws, Reflect/Embedding: the reflection that the package uses on structs, and
--     `Model` of model.go
--   Keys, Keys/Laws: keys.go, `PK`, `SK` and `Keys`
--   ZeroKeys, ZeroKeys/Laws, Refusal: the keys that an ID alone gives, in crud.go, and the check
--     `requiresDefaultKey` of the operations that need them
--   Compress and its children: compress.go, structs to and from attribute maps (Laws, RoundTrip and
--     Restored: what each loop writes and restores; Codec: the codecs' laws and the round trip)
--   Crud, Crud/Stamping, Crud/Written, Crud/Putting, Update: crud.go, `stampAndMarshal`, `Put`,
--     `Get`, `Delete` and `UpdateBuilder`
--   Table and its children: a table of rows as the client of crud.go, as an interface (Accepted,
--     Stamped and Located: what a Put finds and stores; Contention: two writers; ReadBack and its
--     children: Get after Put, after a transaction and after an Update; Removed: Get after Delete;
--     Updated: an Update, and a Put after it; Preparing, Queued, Transacted and Cancelled: the Puts
--     of a transaction; Retried: a second try; Decided: a Put whose call is decided by its condition;
--     Indexed: the type index after a Put; History and its children: what any number of clients do to
--     one item)
--   Chunks, Chunks/Partition, Batch, Batch/Reading, Batch/Limits, Batch/Retries: batch.go, the builders
--     of writes and of reads; Batch/Rows, Batch/Answered, Batch/Applied: on a client that processes a
--     part of each call
--   Transact, Transact/Reading, Transact/Limits, Transact/Cancellation, Transact/Prepared,
--     Transact/Sending, Transact/Filled: transact.go, the builders of writes and of reads, and the
--     destinations of a read
--   Paging, Paging/Served, Listing: the loops over pages of query.go, scan.go and statement.go
--   Query, Query/Filters, Query/Passing, Query/Cursors, Query/Opaque, Query/Chain: query.go, with the
--     filters, of scans too, and the cursors of `Page`; Statement: statement.go
--   Scan, Scan/Parallel and its children: scan.go, with the goroutines of a parallel scan (Merged:
--     any schedule; Snapshot, Shares, Complete and Fair: on a table that does not change meanwhile)
--   Env, Db: client.go and options.go; Fault: errors.go and how Go code fails; Io: actions
--   Prelude, Text, Dict: lists and tests, package strings, and Go maps; Tests: concrete runs
--
-- How they interact: the tags of a type (Tags) say which fields make its keys (Keys). A write stamps
-- the item in memory, marshals it (Compress) and puts the keys into the map (Crud); Put, batches and
-- transactions share this. Reads by ID compute the keys from a zero value that has the ID
-- (ZeroKeys), and all reads unmarshal into new or given structs (Compress).
--
-- The model. A Go function is a function with the same name in snake case, but where a constructor
-- has that name: `SKEquals`, `SKBeginsWith` and `SKBetween` are `sk_equal_to`, `sk_starting_with`
-- and `sk_in`, and the filters of queries and scans are `filter_eq`, `filter_ne`, `filter_gt`,
-- `filter_ge`, `filter_lt`, `filter_le`, `filter_prefix`, `filter_containing`, `filter_present` and
-- `filter_absent`. A struct value is its type's name and its fields in order (`Struct`), a pointer
-- an address in a heap of structs (`Pointer`). A function that may fail returns an `Outcome`: a
-- value, an error, or a panic; an error is a chain of wrappers (`Error`), on which `errors.Is` and
-- `errors.AsType` are computed. An action (`Io`) also takes and returns the state: the heap and the
-- world. A builder is a record, and each of its methods a function on it. The tag cache is modelled
-- beside the parsing (Tags/Cache); everything else parses anew. A parallel scan is a relation: its
-- goroutines take turns in any order, each turn a call of the client or the merging under the
-- mutex. So are the histories of one item: any number of clients put, update and delete it, in
-- steps that succeed; whatever else leaves its row alone is a step too. Batch writes carry no
-- condition and are no steps of a history.
--
-- What the package calls and does not implement is an argument: the client (`Client`, the methods
-- of `dynamoAPI`), the clock and the actor of a `Db`, package expression (`ExpressionApi`), uuid,
-- sleep, and the codecs of attributevalue, json, gzip and base64 (`Runtime`, `CursorCodec`).
-- Nothing is assumed of them but where a theorem names it: the laws of a table of rows (`Table`,
-- `Updates`, `Transacts`), and of a client that refuses a write for nothing but its condition
-- (`Decides`, `Cancels`); of codecs that read back what they write (`IsReadable`, `IsLossless`);
-- of conditions (`Meaning`, `KeyMeaning`); of clients that split a batch's entries into processed
-- and unprocessed ones (`Ledger`, `Answers`); and of segments whose pages do not depend on what
-- happens between the calls (`Segment`). The tests have an instance of each. `Get` asks for no
-- consistent read, so that what it is answered may be an earlier row: a theorem on it names the
-- answer (`GetAnswers`). `MarshalMap` stores the version of the `Model` only for a type that does not
-- hide it by a field of its own: the theorems on versions are about such types (`KeepsVersion`).
--
-- Fuel. The rounds of a batch's chunk are on fuel for six, the first call and `batchMaxRetries` more,
-- and the loops over chunks on fuel for each element; neither depends on what the client answers.
-- The loops over pages end only if the client's pages do; they are on fuel for the pages. `Version`
-- is a number below 2 ^ 64 with Go's wrap-around of `int`, its negative half as the upper half.
--
-- Not modelled: the texts of Go's own panics; that a panic in a goroutine ends the program; the
-- parameters and outputs of the SDK that the package does not set or read; tests, examples and
-- build files.
pub mod Prelude
pub mod Text
pub mod Dict
pub mod Fault
pub mod Reflect
pub mod Tags
pub mod Sdk
pub mod Keys
pub mod ZeroKeys
pub mod Compress
pub mod Env
pub mod Io
pub mod Db
pub mod Crud
pub mod Table
pub mod Update
pub mod Chunks
pub mod Batch
pub mod Refusal
pub mod Transact
pub mod Paging
pub mod Query
pub mod Scan
pub mod Statement
pub mod Listing
pub mod Tests
