-- ===== src/Lib.antt =====
-- cutl is a C library of small utilities: iterators, strings, text streams and allocators. The
-- iterators and the views do not share state; an output stream writes to a file, a string stream
-- into its buffer; and the allocators share sizes, guards and an interface of callbacks.
--
-- Which file models what:
--   Combination   src/iterators/combination_iterator.c. The struct is the record
--                 `CombinationIterator`, its array `counters` a list; `init`, `reset`, `next`,
--                 `is_done`, `total_count`, `get_index` and `set_to_index` are the functions of
--                 these names behind `combination_iterator_` and `combination_`. Its children:
--                 Binomial and Rank describe counts and lexicographic order, Count, Index and
--                 Unrank the functions on indices, Step, Next and Enumerate the iterator.
--   Permutation   src/iterators/permutation_iterator.c. `cells` is the array of the indices, the
--                 cycles and the values. Its children: Cycles and Steps read the cycles as digits,
--                 Rearranged and Values follow the indices, Start is the array behind `init`, Run
--                 and Distinct are about whole runs, Count is about the total count.
--   Multidim      src/iterators/multidim_iteration.c. `cells` is the array of the dimensions and,
--                 behind them, the offsets. Its children: Cells and Flat describe the array, Ends,
--                 Advance and Recede the loops, Walk, Index, Back, AtEnd and Init whole calls.
--   Strings       src/string/strings.c. A view is the record `String8`, its pointer an index into
--                 the list of bytes `mem`. Its children: Search and Reverse, Pieces and
--                 Split, Bytes and Edit.
--   Allocators    src/allocators/allocator_internal.h: sizes, guards and states of blocks, for any choice
--                 of alignment and guard bytes that a build makes (`BuildChoice`); Layout is about
--                 them. Its children model a file each:
--     Stack       stack_allocator.c. The infos at both ends of a block are a map beside the other
--                 bytes, from the addresses at which they stand; Resize has the reallocation, the
--                 callbacks and the creation. Blocks is the list of blocks that a stack stands
--                 for; Allocate, Deallocate, Release and Grow compare the calls with it, and Runs
--                 is about sequences of calls and of writes by the callers, less the reallocation,
--                 which can leave the stack.
--     Blocks      block_allocator.c. Counters and blocks are bytes of one memory; Interface has the
--                 reallocation, the callbacks and the creation. Bits is about the bits of a byte,
--                 State about the blocks that are in use, Search and Allocate, Release, Cycle,
--                 Sizes and Create about the calls.
--     Default     allocators.c. An allocator is a record of its callbacks, which act on a `World`;
--                 Groups is about `alloc_group`.
--   Streams       include/cutl/streams: buffers, arguments, and the interface `Formatter` of the functions
--                 of src/string/format.c that the streams call. Integers fills it with the functions
--                 of Format and the specification of src/string/format_defaults.c; for floating-point
--                 numbers it stays a parameter.
--     StringStream  src/string/string_stream.c. Contents is about one write, Render and Format about
--                 the loop over the arguments, Integers about what the formatter of integers writes.
--     OutputStream  src/string/output_stream.c. Contents has the bytes that were given to a stream
--                 and the flush, Strings and Values are about the writes.
--   Format        src/string/format.c, the integers. Digits and Length are about the length, Write is the
--                 model of the write. Output is about the view that shrinks, Text about the digits,
--                 Integer has the text as a description, Steps is about the steps that write it,
--                 and Exact about the whole of it.
--   Errors        the result codes of include/cutl/error.h.
--   Base          numbers, lists, machine words, signed values and Boolean tests that the parts
--                 share.
-- In each part, Tests holds runs at concrete inputs.
--
-- Numbers are natural numbers with the wrap of the C type written out: `u8`, `u32` and `u64` are
-- remainders, `i32` is the conversion to `int32_t`. An array is a list: a read past its end gives
-- the default that the model names, and a write past its end changes nothing; the theorems assume
-- the room that the callers have to provide. A C loop is recursion on the rounds left, computed from
-- the bound in the loop's head, so no loop runs out of rounds; the loop of `split`, which has no
-- such bound, gives `none` when its rounds are spent, and gets one round more than the string has
-- bytes. The loop of `write_cstr` gets one round more than the string has bytes: every round but
-- the first, which may find the buffer full, takes a byte at least. `pop_loop` gets one more than the
-- stack has bytes, of which each round takes some. The loops over the digits of a number get a
-- round for each of its 64 bits. A failed assertion is `none`, as in a build with assertions, and so
-- is a `memcpy` of runs that overlap and the negation of the least `intmax_t`. Addresses are numbers;
-- the memory of an array does not reach the end of the address space.
--
-- Not modelled: the size expressions for the memory of an iterator,
-- combination_get_index_difference, the trimming of strings, which calls the cutf library, the texts
-- of the result codes, the formatting of floating point numbers, the arena, fixed-size and OS allocators,
-- and the tests. The C library is a parameter: the value of memcmp in the comparisons, malloc,
-- realloc and free in the allocator of the C library, and fwrite and fflush in the output stream,
-- where the theorems assume a file whose writes succeed.
pub mod Base
pub mod Errors
pub mod Format
pub mod Allocators
pub mod Combination
pub mod Multidim
pub mod Permutation
pub mod Streams
pub mod Strings
