-- ===== src/Errors.antt =====
-- include/cutl/error.h and src/error.c: the result codes.
pub data Result : Type 0 where
  success : Result
  failure : Result
  out_of_memory : Result
  insufficient_alignment : Result
  insufficient_buffer : Result
  mismatched_allocator : Result
  corrupted_pointer : Result
  double_deallocation : Result
  index_out_of_bounds : Result
  callback_failure : Result
  invalid_type_enum : Result
  file_io_failure : Result
