-- ===== src/Lib.antt =====
-- Findo: a search server for the files of SMB shares.
--
-- The server connects to each configured volume (a share of an SMB server), crawls it into tables of
-- a Postgres database, follows its change notifications between crawls, and extracts the text of its
-- files in the background. The parts below call each other as the modules do:
--
--   Index (backend/internal/index): the tables files, content_state, chunks and crawl_runs as lists
--     of rows in a record `Db`, and every statement as a function on it. A statement takes a Boolean
--     that says whether the database refuses it (a lost connection, a full disk), and returns the
--     error with the tables as they were. Index/Files is index.go (UpsertBatch, StreamUpsert, Sweep,
--     Delete, Reconcile, StartCrawlRun, FinishCrawlRun), Index/Paths its SplitPath and normalizeDir,
--     Index/Content and Index/Progress are content.go, Index/Settings is settings.go (with httpapi/settings.go),
--     Index/Queries the queries of index.go, Index/ContentSearch is contentsearch.go, and
--     Index/Migrate is migrate.go.
--   Volumes: index/volumes.go, and in Volumes/Server and Volumes/Tested the requests of
--     httpapi/volumes.go and the
--     sessions of httpapi/server.go that they start and stop.
--   Smb (backend/internal/smbclient/smbclient.go): the paths that are sent to a share, the walk as a
--     step relation on its workers (Smb/Walk), and the session with its replacement (Smb/Session).
--   Changes (backend/internal/smbclient/watch.go): notifications, and the watch loop by its rounds.
--   Crawl (backend/internal/httpapi/crawl.go): one crawl. The walk's entries and its error are
--     arguments, in a record `World` with what the database answers. Crawl/Guard is what keeps the
--     crawls of a volume apart, in httpapi/server.go (triggerCrawl, StartVolume).
--   Watch (backend/internal/httpapi/watch.go): one change event on the index.
--   Search (backend/internal/httpapi/server.go): the requests that search, list, count and report.
--   Filetype (backend/internal/filetype/filetype.go): the table of extensions, and Contents
--     (backend/internal/httpapi/content.go): the headers that a file is served with.
--   FileText (backend/internal/httpapi/filetext.go): the page of a file's extracted text.
--   Indexer (backend/internal/httpapi/contentindex.go): a pass of the content indexer. What the
--     share and the extractors answer for a file is in a record `FileWorld`; the workers' order is
--     the order of their transactions.
--   Extract (backend/internal/extract): Chunk is chunk.go (text in chunks); Blocks and Sink are the
--     block cache and the sink of ooxml.go, with stripControls of text.go; Proto is eachField of
--     iwork.go, Iwork its messages and archives, Iwork/Parts its packages and chunks;
--     Keynote is keynote.go on them. Xml is the loop
--     over the tokens of an XML part, on which Office (docx.go and pptx.go) and Xlsx (xlsx.go) stand;
--     Package is the opening of a package and of its parts in ooxml.go, Pdf the shared engine of
--     pdf.go as a step relation and Pdf/Pages the reading of a document, Plain text.go, and Dispatch
--     extract.go.
--   HostGuard (backend/internal/httpapi/hostguard.go), Config (backend/internal/config/config.go) and
--     Crypto (backend/internal/crypto/crypto.go): which requests are served, what the server is
--     started with, and how passwords are stored.
--   Version (backend/internal/httpapi/version.go): the check for a newer release.
--   Strings: the functions of Go's strings, strconv and unicode/utf8 that these call, over bytes.
--   Prelude: numbers, Booleans, lists and integers that the parts share.
--
-- Text is a list of bytes. Sizes and counts are natural numbers and modification times integers,
-- both without a bound: the source keeps them in 64 bits and compares, copies and adds them, and in
-- ContentProgress subtracts counts of files from a count that includes them.
-- Loops are recursion on the list that they read. Some loops take fuel: cutting a long text, whose
-- length and one more rounds are enough, and reading runes or trimming spaces, where each round
-- takes at least one byte of the text whose length is the fuel. So is
-- reading through the block cache, by the bytes wanted, and reading protocol buffers, archives and
-- chunks, by the bytes left. sort.Slice is an insertion sort: it says no order for equal keys.
--
-- Not modelled: the dashboard, dates in queries, timestamps, log lines and HTTP
-- encoding. SMB, the database, GitHub, the clock, AES-GCM, protowire,
-- Snappy, the readers of zip and XML, PDFium and Unicode's tables are arguments of the definitions
-- that call them.
pub mod Prelude
pub mod Strings
pub mod Version
pub mod Index
pub mod Smb
pub mod Changes
pub mod Crawl
pub mod Watch
pub mod Search
pub mod Filetype
pub mod Contents
pub mod FileText
pub mod Extract
pub mod Indexer
pub mod Volumes
pub mod Crypto
pub mod Config
pub mod HostGuard
mod Tests
