-- ===== src/Lib.antt =====
-- A model of the storage layers of a small database system: paged files with a buffer pool
-- (pflayer/), files of records of varying length on slotted pages (splayer/), and an index as a
-- B+ tree (amlayer/), which am_bulkload.c can fill from sorted entries; and a static index of
-- integers (bulklayer/).
--
-- Prelude has the names and the list lemmas that the other files share; Result has the error
-- codes of pflayer/pf.h and calls as functions from a state to a result and a state.
--
-- Hash is pflayer/hash.c: insert, find and delete are PFhashInsert, PFhashFind and PFhashDelete
-- on the chains of the table. Hash/Laws has what they do to the keys.
--
-- Buf is pflayer/buf.c. The pool holds the hash table, the frames, the list of used frames (head
-- first) and the free list as lists of frame numbers, the policy and the counters. Buf/Alloc is
-- PFbufInternalAlloc with its replacement of a frame; Buf/Ops has get (PFbufGet), unfix
-- (PFbufUnfix), alloc (PFbufAlloc), release_file (PFbufReleaseFile) and mark_used (PFbufUsed).
-- Buf/Valid is the invariant; Buf/Taken and Buf/Fetch are the stages of an allocation; Buf/Keeps
-- is about the routines, Buf/Unfixed about PFbufUnfix and Buf/Victim about the two policies. The
-- functions that read and write pages are arguments, as in the source, and so is malloc().
--
-- Pf is pflayer/pf.c over this pool: the open file table, and the system calls as one record.
-- Pf/Io has PFreadfcn and PFwritefcn, Pf/Files the routines on whole files, Pf/Pages those on
-- pages. Pf/Safe, Pf/SafeLists and Pf/SafeAlloc are about the routines on pages, Pf/Close is
-- about PF_CloseFile. A descriptor or page number is an integer until its guard has passed, and
-- a number from there on. A page that is handed out is the number of its frame.
--
-- Words has the bytes of a page and 32-bit integers in it. Sp is splayer/sptype.h, Sp/Page the
-- part of splayer/sp.c that works inside one page, Sp/File and Sp/Scan the routines on files
-- over Pf/Pages. Sp/Valid is the invariant of a page; Sp/Insert, Sp/Delete, Sp/Compact and
-- Sp/Packed follow the writes of the routines; Sp/Records is a page as a map from slots to
-- records; Sp/Fresh is about a new page. Sp/Safe, Sp/Loops, Sp/ScanLoops, Sp/Returns, Sp/Read
-- and Sp/End are about the routines on files. The bytes of a page are a function of all numbers;
-- so the routines on files test first that the slots and records they reach are on the page, and
-- that the next slot number is an int, and have the outcome `outside` where C leaves it
-- undefined. What SP_CompactPage does to a page that is not well formed is not tested.
--
-- Am is amlayer/am.h and AM_Compare; Words/Short has the 16-bit integers of its pages. Am/Search
-- is AM_BinSearch and AM_SearchLeaf of amlayer/amsearch.c; its modules compare them with a
-- linear search. Am/Leaf is amlayer/aminsert.c on the bytes of a leaf and of a local header.
-- Am/Leaf/View is the invariant of a leaf; Am/Leaf/Take, Link and Found follow
-- AM_InsertToLeafFound, Am/Leaf/Shift and Opened AM_InsertToLeafNotFound, Am/Leaf/Insert and
-- Refines AM_InsertintoLeaf; Am/Leaf/Finds searches after an insertion. Am/Leaf/Unlink, Shared,
-- Freed, Closed and Removed follow AM_DeleteEntry in a leaf, Am/Leaf/Deletes is about the whole
-- of it, and Am/Leaf/Undone about a deletion after an insertion. Am/Leaf/Packs is the inner loop
-- of AM_Compact, with the lists it makes in Runs and the number of cells it takes in Counts;
-- Am/Leaf/Compacts is its outer loop, Am/Leaf/Compacted the page that it makes and
-- Am/Leaf/Repacked the whole of it; Am/Leaf/Replaced is about an insertion that compacts the
-- page first. Am/Node has the routines of amlayer/am.c on the bytes of an internal node. Am/Tree
-- has the variables of the layer and the stack of amlayer/amstack.c; Am/Tree/Find is AM_Search,
-- Am/Tree/Grow has AM_SplitLeaf and AM_AddtoParent of amlayer/am.c, Am/Tree/Entries the routines
-- of amlayer/amfns.c, Am/Tree/Open and Am/Tree/Next those of amlayer/amscan.c. Am/Tree/Outcome
-- and Am/Tree/Safe are about AM_Search and Am/Tree/Empty about the page of a new index. What
-- local arrays hold before they are filled is an argument. A statement that C leaves undefined,
-- such as a push on the full stack, gives the outcome `undefined`.
--
-- Am/Bulk is am_bulkload.c on the bytes of a page and Am/Bulk/Load its build_internal_levels and
-- AM_BulkLoad on the paged files. Am/Bulk/Same and Filled are about the leaves it fills,
-- Am/Bulk/Nodes and Levels about the nodes above them, Am/Bulk/Kept and Yields about what they
-- rely on in Pf, Am/Bulk/Overwritten about the page that is first a leaf and then the root. An
-- array of entries is given by its bytes.
--
-- Bl is the layout of bulklayer/blinternal.h with the binary search of blsearch.c and the test
-- of blscan.c; Bl/Files is bl.c, Bl/Find is BL_Search, Bl/Scan the rest of blscan.c and Bl/Load
-- is blbulk.c. Bl/Search is about the binary search, Bl/Leaf about a leaf that was loaded,
-- Bl/Choose about internal pages and scans, Bl/Levels about the number of levels.
--
-- Loops: those over chains and frames follow the list; the loop of PF_GetNextPage and those of
-- Sp/File and Sp/Scan over the pages of a file take a number of rounds from the header of the
-- file, the last two one more than the file has pages. A round ends in an error when it has no
-- page left, so this is enough; a loop that used up its rounds would return `running`, which the
-- theorems exclude. The loop of AM_Search pushes an entry on a stack of 50 in each round, and
-- that of AM_AddtoParent takes one from it. The loops over a list of cells in a leaf take 4097
-- rounds, more than a page has offsets, and the one over empty leaves in AM_FindNextEntry one
-- round more than the file has pages; the binary searches take as many rounds as there are keys.
-- The loops over the levels in Am/Bulk/Load and Bl/Load take as many rounds as there are pages
-- in the lowest level, and those over the pages of a level as many as it has; the theorems
-- exclude that they use them up. The descent of BL_Search and the loop of BL_GetNext over leaves
-- take a bound as an argument.
--
-- Not modelled: the routines that print, the quotient in SP_GetFileStats (a floating-point
-- number), the links of the list of used frames, and what happens to memory outside a page. Page
-- numbers and the counters of the statistics are numbers without a bound. amlayer/amprint.c,
-- BL_PrintStats and the test programs are not modelled, nor is a malloc() in am_bulkload.c or
-- bulklayer/ that gives no memory. In amlayer/ the shorts of a header (kept as their 16 bits, of
-- which a page of 4096 bytes needs 15 at most), the lengths of attributes and the offsets in a
-- node are not negative, and a file name with the number of the index is an argument.
--
-- Tests, Sp/Tests, Am/Tests, Am/Bulk/Tests and Bl/Tests have runs on a small file system, on
-- pages with two records, on small leaves and nodes, and on short arrays.
pub mod Prelude
pub mod Result
pub mod Hash
pub mod Buf
pub mod Pf
pub mod Words
pub mod Sp
pub mod Am
pub mod Bl
pub mod Tests
