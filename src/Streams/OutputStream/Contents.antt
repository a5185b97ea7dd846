-- ===== src/Streams/OutputStream/Contents.antt =====
-- The bytes that were given to a stream: those in the file, and behind them those in the buffer.
use cutl.Base.{
  ℕ, zero, suc, ◌+◌, ◌-◌, ◌^◌, ◌≤◌, ◌<◌, ◌≡◌, inl, inr, refl, sym, ◌∙◌, ap, arith, List, [], ◌++◌,
  append-nil, append_assoc, length, u64, sub64, eq→==, ne→==, eq-or-ne, pos, ◌≢◌, subst,
}
use cutl.Errors.{Result, success}
use cutl.Streams.{Buffer, get}
use cutl.Streams.Buffers.{get-put_behind}
use cutl.Streams.OutputStream.{FileOps, OutputStream, flush_result, flush, copy_in}

pub length-get : (buffer : Buffer) (i n : ℕ) → length (get buffer i n) ≡ n
unfolding get
length-get buffer i zero = refl
length-get buffer i (suc n) = ap suc (length-get buffer (i + 1) n)

-- A file whose writes all succeed: `fwrite` writes all of the bytes behind what the file holds and
-- returns their number, and `fflush` returns 0 and changes no byte.
pub record IsReliable {File : Type 0} (ops : FileOps File) (contents : File → List ℕ) : Type 0 where
  pub fwrite_count : (file : File) (bytes : List ℕ) → (ops.fwrite file bytes).0 ≡ length bytes
  pub fwrite_contents :
      (file : File) (bytes : List ℕ) → contents (ops.fwrite file bytes).1 ≡ contents file ++ bytes
  pub fflush_result : (file : File) → (ops.fflush file).0 ≡ pos 0
  pub fflush_contents : (file : File) → contents (ops.fflush file).1 ≡ contents file

pub record IsStream {File : Type 0} (this : OutputStream File) : Type 0 where
  pub fits : this.buffer_pos ≤ this.buffer_size
  pub small : this.buffer_size < 2 ^ 64

module _ {File : Type 0} (ops : FileOps File) (contents : File → List ℕ) where
  unfoldable pub output : OutputStream File → List ℕ
  output this = contents this.stream ++ get this.buffer 0 this.buffer_pos

  -- A call that succeeded: `text` was added to the bytes that were given to the stream.
  pub record Adds (this : OutputStream File) (result : Result × OutputStream File) (text : List ℕ)
      : Type 0 where
    pub succeeded : result.0 ≡ success
    pub string : output result.1 ≡ output this ++ text
    pub valid : IsStream result.1
    pub size : result.1.buffer_size ≡ this.buffer_size

  module _ (this : OutputStream File) (stream : IsStream this) where
    pub copy_in-Adds :
        (bytes : List ℕ)
        → length bytes ≤ this.buffer_size - this.buffer_pos
        → Adds this (success, copy_in ops this bytes) bytes
    unfolding copy_in output
    copy_in-Adds bytes room =
        let fits = stream.fits in
        let small = stream.small in
        let e : u64 (this.buffer_pos + length bytes) ≡ this.buffer_pos + length bytes =
          omega arith in
        record {
          succeeded = refl;
          string = rw e (
              ap (λ t. contents this.stream ++ t) (get-put_behind this.buffer this.buffer_pos bytes)
              ∙ sym (append_assoc (contents this.stream) _ bytes));
          valid = record { fits = omega arith; small = small };
          size = refl;
        }

    pub room_left : sub64 this.buffer_size this.buffer_pos ≡ this.buffer_size - this.buffer_pos
    room_left = let fits = stream.fits in let small = stream.small in omega arith

    module _ (law : IsReliable ops contents) where
      abbrev written : File
      written = (ops.fwrite this.stream (get this.buffer 0 this.buffer_pos)).1

      abbrev emptied : OutputStream File
      emptied = record this { stream = (ops.fflush written).1; buffer_pos = 0 }

      flush_full : this.buffer_pos ≢ 0 → flush ops this ≡ (success, emptied)
      unfolding flush flush_result
      flush_full ne =
          let bytes = get this.buffer 0 this.buffer_pos in
          let count =
            law.fwrite_count this.stream bytes ∙ length-get this.buffer 0 this.buffer_pos in
          rw
            (
              ne→== this.buffer_pos 0 ne,
              eq→== (ops.fwrite this.stream bytes).0 this.buffer_pos count,
              law.fflush_result written,
            )
            refl

      flush_empty : this.buffer_pos ≡ 0 → flush ops this ≡ (success, this)
      unfolding flush
      flush_empty e = rw (eq→== this.buffer_pos 0 e) refl

      emptied-Adds : Adds this (success, emptied) []
      unfolding output get
      emptied-Adds = record {
        succeeded = refl;
        string =
            append-nil _
            ∙ law.fflush_contents written
            ∙ law.fwrite_contents this.stream (get this.buffer 0 this.buffer_pos)
            ∙ sym (append-nil _);
        valid = record { fits = omega arith; small = stream.small };
        size = refl;
      }

      -- A flush of a reliable file moves all of the buffer into the file.
      pub flush-Adds : Adds this (flush ops this) [] × ((flush ops this).1.buffer_pos ≡ 0)
      flush-Adds = elim (eq-or-ne this.buffer_pos 0) [
        | inl e ↦
            subst (λ r. Adds this r [] × (r.1.buffer_pos ≡ 0)) (sym (flush_empty e))
              (
                record {
                  succeeded = refl;
                  string = sym (append-nil _);
                  valid = stream;
                  size = refl;
                },
                e,
              )
        | inr ne ↦
            subst (λ r. Adds this r [] × (r.1.buffer_pos ≡ 0)) (sym (flush_full ne))
              (emptied-Adds, refl)
      ]
