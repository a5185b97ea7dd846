-- ===== src/Streams/OutputStream/Values.antt =====
-- Formatted integers into an output stream, for a file whose writes succeed.
use cutl.Base.{
  ℕ, ◌+◌, ◌-◌, ◌≤◌, ◌<◌, ◌≡◌, ◌⊎◌, inl, inr, refl, sym, ◌∙◌, ap, ap₂, arith, Option, some, List, [],
  ◌++◌, append-nil, append_assoc, length, u64, lt→ltb, le→ltb, lt-or-le, ℤ,
}
use cutl.Errors.{success, insufficient_buffer}
use cutl.Strings.{}
use cutl.Streams.{Buffer, get, Formatter, Formats, spec_or, is_success}
use cutl.Streams.Buffers.{get_same, get_append}
use cutl.Streams.Integers.{integer_formatter, default_int_specs, formats_of}
use cutl.Streams.StringStream.Contents.{Writes}
use cutl.Streams.StringStream.Integers.{IsPlainInteger, text_of, integer_formatter-Writes}
use cutl.Format.{IntegerSpec}
use cutl.Streams.OutputStream.{
  FileOps, OutputStream, flush, get_output_string, write_value, write_integer,
}
use cutl.Streams.OutputStream.Contents.{IsReliable, IsStream, output, Adds, room_left, flush-Adds}
use cutl.Streams.OutputStream.Strings.{Adds-trans, as_success}

module _ {File : Type 0} (ops : FileOps File) (contents : File → List ℕ) where
  abbrev filled : OutputStream File → List ℕ → Buffer → OutputStream File
  filled s text final = record s { buffer = final; buffer_pos = u64 (s.buffer_pos + length text) }

  -- A buffer that holds the text behind the position, and is otherwise the same.
  filled-Adds :
      (s : OutputStream File) (text : List ℕ) (final : Buffer)
      → IsStream s
      → length text ≤ s.buffer_size - s.buffer_pos
      → get final s.buffer_pos (length text) ≡ text
      → ((j : ℕ) → (j < s.buffer_pos) ⊎ (s.buffer_pos + length text ≤ j) → final j ≡ s.buffer j)
      → Adds ops contents s (success, filled s text final) text
  unfolding output
  filled-Adds s text final stream room here kept =
      let fits = stream.fits in
      let small = stream.small in
      let e : u64 (s.buffer_pos + length text) ≡ s.buffer_pos + length text = omega arith in
      let z : 0 + s.buffer_pos ≡ s.buffer_pos = omega arith in
      let string : get final 0 (u64 (s.buffer_pos + length text))
          ≡ get s.buffer 0 s.buffer_pos ++ text =
        ap (λ k. get final 0 k) e
        ∙ get_append final 0 s.buffer_pos (length text)
        ∙ ap₂ (λ (x y : List ℕ). x ++ y)
            (get_same final s.buffer 0 s.buffer_pos (λ j low high. kept j (inl (omega arith))))
            (ap (λ k. get final k (length text)) z ∙ here) in
      record {
        succeeded = refl;
        string =
            ap (λ t. contents s.stream ++ t) string
            ∙ sym (append_assoc (contents s.stream) (get s.buffer 0 s.buffer_pos) text);
        valid = record { fits = omega arith; small = small };
        size = refl;
      }

  module _ (law : IsReliable ops contents) where
    -- The output string is at the position of a stream that has room for it, after a flush if need be.
    get_output_string-room :
        (this : OutputStream File) (n : ℕ)
        → IsStream this
        → n ≤ this.buffer_size
        → (next : OutputStream File) × (get_output_string ops this n
            ≡ some
                (success, record next { buffer_pos = u64 (next.buffer_pos + n) }, next.buffer_pos))
          × Adds ops contents this (success, next) []
          × (n ≤ next.buffer_size - next.buffer_pos)
    unfolding get_output_string is_success output
    get_output_string-room this n stream le =
        let room : ℕ = this.buffer_size - this.buffer_pos in
        elim (lt-or-le room n) [
          | inr enough ↦ (
            this,
            rw
                (
                  room_left ops contents this stream,
                  le→ltb this.buffer_size n le,
                  le→ltb room n enough,
                )
                refl,
            record { succeeded = refl; string = sym (append-nil _); valid = stream; size = refl },
            enough,
          )
          | inl short ↦
              let (emptied, at_start) = flush-Adds ops contents this stream law in
              (
                (flush ops this).1,
                rw
                    (
                      room_left ops contents this stream,
                      le→ltb this.buffer_size n le,
                      lt→ltb room n short,
                      emptied.succeeded,
                    )
                    refl,
                as_success ops contents law this _ [] emptied,
                omega (arith, at_start, emptied.size),
              )
        ]

    write_value-Adds :
        {Value Spec : Type 0} (f : Formatter Value Spec) (this : OutputStream File) (value : Value)
        (given : Option Spec) (text : List ℕ)
        → Writes f value (spec_or given f.default) text
        → IsStream this
        → length text ≤ this.buffer_size
        → (next : OutputStream File) × (write_value ops f this value given ≡ some (success, next))
          × Adds ops contents this (success, next) text
    unfolding write_value is_success
    write_value-Adds f this value given text promise stream le =
        let n : ℕ = length text in
        let (next, got, emptied, room) = get_output_string-room this n stream le in
        let (final, e, here, kept) =
          promise.written next.buffer (record { length = n; data_ptr = next.buffer_pos }) refl in
        (
          filled next text final,
          rw (write_value, promise.measured, le→ltb this.buffer_size n le, got, e) refl,
          Adds-trans ops contents law this next _ [] _ emptied
              (filled-Adds next text final emptied.valid room here kept),
        )

    -- With a file whose writes succeed and a valid stream, for an integer between -2^63 and 2^63 and a
    -- specification of a base of two or more, without separators, whose strings are one byte each and
    -- whose sizes are below 2^30: an integer whose text is longer than the buffer is reported, and
    -- changes nothing; the text of any other is added to the output, after a flush if need be, and the
    -- result is a success. No assertion fails.
    pub write_integer-output :
        (others : Formats) (this : OutputStream File) (value : ℤ) (given : Option IntegerSpec)
        → IsPlainInteger value (spec_or given default_int_specs)
        → IsStream this
        → let text = text_of value (spec_or given default_int_specs) in
          ((this.buffer_size < length text)
            × (write_integer ops (formats_of others) this value given
                ≡ some (insufficient_buffer, this)))
          ⊎ ((next : OutputStream File) × (length text ≤ this.buffer_size)
              × (write_integer ops (formats_of others) this value given ≡ some (success, next))
              × (output ops contents next ≡ output ops contents this ++ text)
              × IsStream next)
    unfolding write_integer write_value
    write_integer-output others this value given p stream =
        let spec = spec_or given default_int_specs in
        let text = text_of value spec in
        let promise = integer_formatter-Writes value spec p in
        elim (lt-or-le this.buffer_size (length text)) [
          | inl big ↦ inl (
            big,
            rw (write_value, promise.measured, lt→ltb this.buffer_size (length text) big) refl,
          )
          | inr le ↦
              let (next, e, added) =
                write_value-Adds integer_formatter this value given text promise stream le in
              inr (next, le, e, added.string, added.valid)
        ]
