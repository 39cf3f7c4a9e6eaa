-- ===== src/Lib.antt =====
-- gozim reads and writes ZIM archives: a header of 80 bytes, a list of MIME types, directory entries
-- sorted by namespace and path, and clusters of blobs, compressed or not. An archive is opened by
-- reading the header, the MIME list and all entries; an entry is found by binary search; its blob is
-- taken from a cluster, which is read, decompressed and kept in an LRU cache. The full-text index
-- within an archive is a Xapian "glass" database, whose values are packed integers and strings.
--
-- Files:
-- Format: the constants and namespaces (archive/zim/zim.go, namespace.go, endian.go).
-- Header: ParseHeader, Validate, EncodeHeader (archive/zim/header.go).
-- Uuid: ParseUuid, String, IsZero (archive/zim/uuid.go).
-- Mime: the MIME list (archive/zim/mime.go).
-- Dirent: ParseDirent, EncodeDirent (archive/zim/dirent.go).
-- Cluster: ParseCluster, Blob, BlobRange, EncodeCluster (archive/zim/cluster.go).
-- Archive: Open, EntryByPath and its kin, items (archive/zim/archive.go, entry.go, item.go);
--   Archive/Listing: IterateByPath, FindByPath, metadata (archive/zim/archive.go);
--   Archive/Titles: EntryByTitle, the title index, IterateByTitle, IterateByClusterOrder.
-- Cache: a shard of the LRU cache (archive/zim/cache.go); Cache/Sharded: the cache of 32 shards;
--   Cache/Spec: what a shard promises, as a list of entries.
-- Multipart: openSplitFiles and ReadAt over several files (archive/zim/multipart.go).
-- Integrity: the checks of pointers, order, MIME types and redirects (archive/zim/integrity.go);
--   Integrity/Links: the checks of links, of empty entries and of redundancy.
-- Writer: the calls of the writer and the grouping into clusters (archive/zim/writer.go);
--   Writer/Layout: resolveRedirects and finishWriting, the bytes of the file, and Open on them.
-- Glass: the packed integers and strings (archive/zim/glass/pack.go);
--   Glass/Block: ReadBlock, FindItem, Encode (archive/zim/glass/block.go);
--   Glass/Btree: Get and Insert with splits (archive/zim/glass/btree.go);
--   Glass/Postlist: the chunks of a posting list (archive/zim/glass/postlist.go);
--   Glass/Version: ReadVersion, EncodeVersion (archive/zim/glass/version.go).
-- Stemmer: the Porter stemmer of the search (archive/zim/bm25/stemmer.go).
-- Search/Query: ParseQuery; Search/Tokenizer: Tokenize; Search/Index: AddDocument and the posting
--   lists; Search/Snippet: the matches and the window of GenerateSnippet (archive/zim/bm25).
-- Base: what these share; Tests: the theorems at concrete inputs.
--
-- A byte is a natural number, and integers of w bits keep their wrap-around by `% 2 ^ w`. A call
-- returns `ok`, `err` with the sentinel error that errors.Is would find, or `panic`. A slice is its
-- bytes with the spare capacity behind them, since Go reslices up to the capacity. The sizes that
-- the cache adds up are int64 as their 64 bits, and wrap; file sizes and offsets are not negative,
-- and a slice is no longer than an int can say.
--
-- Loops are recursion on their data where it shrinks. Fuel: sort.Search halves a range and has its
-- length as fuel; a varint has room for ten bytes; the leading ones of a byte are at most eight; each
-- round of eviction takes an element, so the list's length is enough; MultipartReader.ReadAt reads at
-- least a byte a round, so the number of bytes asked for is enough. A search in a B-tree has the number
-- of its blocks, which a path that meets no block twice does not pass; the decoder of a posting list
-- has the number of bytes, of which each round takes some. The places of a term in a text have a
-- number of rounds of which one more than the text's length is enough.
-- The search for redirect loops has two rounds for each entry and two more. Each round of the
-- tokenizer takes at least one rune, so the text's length is enough; the scan for links has one round
-- more than the content has bytes.
--
-- Parameters: the reader of a file (`Reader`), the codecs of packages zstd, lzma and xz (`Codec`), and
-- sort.Slice, a function on the order and the list that it sorts (`SortSlice`); what packages strings and unicode say of letters
-- (`Unicode`, `Letters`); crypto/md5; rand.Intn; the files that the parts' names lead to (`File`).
-- Not modelled: files and memory maps, failing writes, the compressors (copies of other libraries),
-- the archive's checksum, the tables of the glass database on disk, the ranking of search results, and the command line.
pub mod Base
pub mod Format
pub mod Header
pub mod Uuid
pub mod Mime
pub mod Dirent
pub mod Cluster
pub mod Archive
pub mod Cache
pub mod Multipart
pub mod Integrity
pub mod Writer
pub mod Glass
pub mod Stemmer
pub mod Search
pub mod Tests
