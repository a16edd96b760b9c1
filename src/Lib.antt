-- ===== src/Lib.antt =====
-- A model of the core of TclX, the Tcl extension, in the files of generic/.
--
-- Parts. The handle tables (generic/tclXhandles.c) give out names for entries of a growing array
-- and are used by the file scanning and other commands. The keyed lists (generic/tclXkeylist.c) are
-- Tcl objects with an array of entries and a hash table of their indices. The character commands
-- (generic/tclXstring.c) and the list commands (generic/tclXlist.c) work on strings and on one
-- variable of the interpreter. All call the utilities (generic/tclXutil.c), and through them the
-- Tcl and the C library.
--
-- Files.
--   Base: lists, texts and integers over native numbers.
--   Libc: isspace, strtoul in base 10 and the decimal print; Libc/Decimal: its round trip.
--   Util: TclX_StrToUnsigned (str_to_unsigned) and TclX_RelativeExpr (relative_expr).
--   Handles: TclX_HandleTblInit (handle_tbl_init), TclX_HandleAlloc (handle_alloc),
--     TclX_HandleXlate (handle_xlate), TclX_HandleWalk (handle_walk), TclX_HandleFree (handle_free)
--     and what they call, on the record Table for tblHeader_t. FreeList and Valid: the free list;
--     Alloc, Xlate, Walk and Lifecycle: the operations on it.
--   Tcl: the hash tables and the list strings of the Tcl library, as records of operations and
--     documented laws.
--   KeyedList: TclX_KeyedListGet (keyed_list_get), TclX_KeyedListSet (keyed_list_set),
--     TclX_KeyedListDelete (keyed_list_delete), TclX_KeyedListGetKeys (keyed_list_get_keys),
--     FindKeyedListEntry (find_index), SetKeyedListFromAny (set_keyed_list_from_any) and
--     DupKeyedListInternalRep (duplicate). Index and Lookup: one level; Sound: the invariant;
--     Reach: the lists that come about; Paths and Frame: get after set; Deleted: get after delete;
--     Fuel: termination; Total: success; Duplicate: copies. Commands: keylget, keylset, keyldel and
--     keylkeys, by the name with _cmd.
--   Interp: the variables and results that a command sees.
--   Strings: cindex, crange, csubstr, clength, cconcat, replicate, cequal, ccollate and ctoken;
--     Strings/Translit: translit; Strings/Ctype: ctype; Range, Token, Compare and Ctype/Scan:
--     theorems.
--   Lists: lvarpop (lvarpop_cmd) and lvarpush (lvarpush_cmd); Lists/PushPop: one after the other.
--     Lists/Search: lempty, lcontain, lmatch, lassign and lvarcat; Search/Match and Assign:
--     theorems.
--   Signals: SignalTrap (signal_trap), FormatTrapCode (format_trap_code), EvalTrapCode
--     (eval_trap_code), ProcessASignal (process_a_signal) and ProcessSignals (process_signals) of
--     generic/tclXsignal.c; Names: SigNameToNum, ParseSignalSpec and ParseSignalList; Actions:
--     SetSignalActions, BlockSignals and the entries of a keyed list of states; Command: the signal
--     command; Kill: kill. Format: the substitution, which leaves %% where doc/TclX.n wants %; Counts, Trap and Process: the number of
--     waiting signals; Pending: the mark of the async handler; Drain: the end of the processing;
--     Actions/Set and Actions/Entries: the settings.
--   Profile: PushEntry (push_entry), RecordData (record_data), PopEntry (pop_entry), UpdateTOSTimes
--     (update_times), ProfCommandEvalSetup (setup), ProfCommandEvalFinishup (finishup),
--     TurnOnProfiling (turn_on) and DeleteProfTrace (delete_trace) of generic/tclXprofile.c;
--     Command: TurnOffProfiling (turn_off) and the profile command. Sound: the pointers; Times,
--     Account and Setup: the time that is accounted for; Session: a whole session.
--   Chmod: ConvSymMode (conv_sym_mode) of generic/tclXchmod.c; Command: chmod. Terms: the end of
--     the loop; Assign: the operator =.
--   Math: max (max_cmd) and min (min_cmd) of generic/tclXmath.c, their loop extreme_loop and
--     ConvertIntOrDoubleObj (convert_int_or_double) over an abstract type of doubles without NaN,
--     to which the conversion of an integer may round. Extremes: what they return.
--   Filescan: the data of generic/tclXfilescan.c and SetMatchInfoVar. Scan: ScanFile (scan_file),
--     whose commands are a parameter that may change the whole state. Contexts and Commands:
--     scancontext, scanmatch, scanfile, their close handlers and FileScanCleanUp; contexts are at
--     addresses of a heap, behind the handles of a table of Handles. Lines: an account of a scan
--     line by line. Registered: the close handlers. Store: the contexts as a map from handles.
--   Lgets: ReadListLine (read_list_line), ReadListInit (read_list_init) and ReadListElement
--     (read_list_element) of generic/tclXlgets.c; Command: lgets. What Tcl_Gets gives is a list.
--     Within and Ends: the end of the reading; Braced and Printed: lists in braces.
--   Bsearch: StandardKeyCompare (standard_key_compare), ReadAndCompare (read_and_compare) and
--     BinSearch (bin_search) of generic/tclXbsearch.c; Command: bsearch. Loop: its end and result.
--   Examples: the theorems at concrete inputs.
--
-- Bounds and fuel. Operations on a keypath recurse on fuel one above its length: each level takes
-- at least the separator off (KeyedList/Fuel). The walk over a table runs on fuel above its size.
-- The loop over a trapped signal runs on fuel above the number of waiting signals and those that
-- commands still let arrive (Signals/Process). ConvSymMode runs on fuel above the length of the
-- text, and BinSearch on fuel above the size of the file. lgets runs on fuel above the size of what
-- the channel gives, for its elements and for the bytes of each. An int is an integer that wraps
-- where the code converts. In the handle tables a body whose size in bytes is no int, a read or
-- write outside a body and a panic are `none`, so that the offset of an entry in a body is an int;
-- elsewhere a signed overflow is the outcome `overflow`. A context's handle is written to a buffer
-- of 16 bytes.
--
-- Not modelled. Trap commands that themselves change the actions of signals, the table of
-- interpreters in generic/tclXsignal.c. chown and chgrp. The editing of the command table by which
-- the profiler sees the commands. Reference counts and freed memory: an object is a value, and
-- whether a child is shared is a parameter. The string representation that an object may hold
-- beside the internal one, and the conversion in place of an object that is only read. The texts of
-- messages. The other files of generic/ are later work or hand their arguments to system calls, as
-- unix/ and win/ do; library/ is Tcl code, compat/ copies C library functions.
pub mod Base
pub mod Bsearch
pub mod Chmod
pub mod Examples
pub mod Filescan
pub mod Handles
pub mod Interp
pub mod KeyedList
pub mod Lgets
pub mod Libc
pub mod Lists
pub mod Math
pub mod Profile
pub mod Signals
pub mod Strings
pub mod Tcl
pub mod Util
