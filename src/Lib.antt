-- ===== src/Lib.antt =====
-- deai, the object system of a desktop automation daemon, in models that compute and theorems about
-- them. The daemon keeps all state in objects: tables of members, with strong and weak reference
-- counts. Modules (events, child processes, D-Bus) export objects, users call them from scripts.
--
-- The parts, and the code that each file is about:
--   Common/        shared helpers: Boolean tests, lists, faults (`none`), buffers from malloc, and
--                  integers.
--   Text           the strings of include/deai/object.h (struct di_string, di_string_*). A string is
--                  the null pointer or its bytes. Text/Join, Text/Split and Text/Slice: proofs.
--   Types, Value   include/deai/object.h: enum di_type, and di_variant with the union di_value. The
--                  elements of arrays and tuples are lists of values.
--   Heap           di_internal.h: di_object_internal and di_member. The heap is a list of cells, a
--                  freed cell is empty, and a pointer is the number of its cell. The member table is
--                  the list of its entries in the order of insertion.
--   Refs           object.c: di_init_object, di_ref_object, di_unref_object, di_destroy_object, weak
--                  references, di_free_value, di_copy_value. Each function has its name. Refs/Counts
--                  is the ledger of a heap, `Counted`: every count is the number of references that
--                  there are, in the heap and in the hands of the code that runs.
--   Gc             object.c: di_scan_type and di_collect_garbage, in three stages over the same heap.
--                  Gc/Mark, Gc/Visited and Gc/Roots follow stage 1, Gc/Scan and Gc/Visit stage 2, and
--                  Gc/Garbage and Gc/Spared put them together over the ledger.
--   Members        object.c and include/deai/helper.h: di_lookup, the raw accessors, di_add_member,
--                  di_delete_member_raw, di_rawsetx, over the heap and release of Refs.
--   Members/Handlers  object.c: call_handler_with_fallback, di_getx, di_setx, di_delete_member,
--                  di_object_next_member, with di_call_object of callable.c and
--                  di_call_object_catch of exception.cc.
--   Members/Typed  object.c: di_getxt, di_rawgetxt, di_get_type, di_callx, di_object_to_string.
--   Conv           bindings/c++/conv.cc: DeaiCheckedIntConverter, DeaiVariantConverter and
--                  di_type_conversion. A converter gives a value and is left with one. Numbers
--                  go through a double.
--   Signals        object.c: di_signal_add_handler, di_signal_remove_handler, di_signal_dispatch,
--                  di_emitn and the listen handles. Signals/Refines has the abstract view of a signal,
--                  the list of its handlers.
--   Roots          main.c: di_add_root to di_roots_dtor.
--   Event          event.c: promises, from di_handlers_dispatch to di_idle_cb; Event/Join:
--                  di_join_promises and di_any_promise. Members with fixed
--                  names are fields of records.
--   Output         string_buf.c, and of spawn.c output_handler and sigchld_handler for one stream.
--   Dbus           plugins/dbus/signature.c: Signature parses, Generate measures, verifies and
--                  writes. Signature/Grammar is the grammar that both are measured by.
--   Tests          concrete runs: the theorems at concrete inputs, and inputs at which code faults.
--
-- State is passed explicitly. `none` is a fault of C (an assertion that fails, a use of freed or
-- unwritten memory, an access outside a buffer, an int that overflows, a cast that does not fit) where a file's first comment says so; error codes
-- are values. Code outside the repository is a parameter: destructors of plugins (a number and a
-- function that runs it), the functions that objects run when they are called, the handlers of
-- users, listeners, the predicates of libdbus, the conversions between integers and doubles, what `%p` prints. What is required of them are
-- named hypotheses (Tame, Obliging, Calm, Honest, Codes, Basics).
--
-- Fuel and bounds. `di_unref_object` takes fuel for the depth of nested destructions: the number
-- of live objects is enough. `di_idle_cb` takes fuel for its rounds: one more than the work that
-- the promises hold is enough, where each handler of a promise counts with what it may add. The scans of the collector take fuel for their depth, and its loops
-- for their rounds: for stages 1 and 2 one more than twice the cells and the length of the list of
-- unreferred objects is enough. The signature parser takes one more than the bytes of the text,
-- and the loop over a read one more than its bytes, and `di_clear_roots` takes the number of
-- members. Sums of size_t wrap where the code adds them; reference counts are plain numbers, since
-- a reference takes memory. Sizes are those of a 64-bit platform.
--
-- Not modelled: closures (callable.c), which are numbers here, and di_listen_to, which makes them
-- (object.c); the making of error objects, di_new_error (object.c), a parameter; timers and
-- file events, processes, logging and start-up (event.c, spawn.c, log.c, main.c, os.c), which
-- call libev and the system; the bindings to Lua, xcb, libdbus and the other plugins; list.h and
-- uthash.h, copies of other libraries. The proofs need no axiom.
mod Common
pub mod Text
pub mod Types
pub mod Value
pub mod Heap
pub mod Errors
pub mod Refs
pub mod Members
pub mod Gc
pub mod Conv
pub mod Dbus
pub mod Event
pub mod Output
pub mod Signals
pub mod Roots
mod Tests
