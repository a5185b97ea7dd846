-- ===== src/Streams/StringStream/Render.antt =====
-- Formatting a list of arguments, against a description of the text that has no buffer.
use cutl.Base.{
  ℕ, ◌+◌, ◌-◌, ◌≤◌, ◌≡◌, ◌⊎◌, inl, inr, refl, sym, arith, Bool, true, false, Option, some, List, [],
  if◌then◌else◌, length, u64, lt→ltb, le→ltb, lt→leb, le→leb, lt-or-le,
}
use cutl.Errors.{success, insufficient_buffer, callback_failure}
use cutl.Streams.{put, Formatter, Custom, spec_or, is_success}
use cutl.Streams.StringStream.{
  StringStream, get_output_string, roll_back, write_value, write_custom,
}
use cutl.Streams.StringStream.Contents.{
  IsStream, nothing-Appends, appended, appended-Appends, Writes, value_text, Renders, room_left,
  filled-Appends, custom_text, IsExactCustom, failed, failed-Appends,
}

module _ (this : StringStream) (stream : IsStream this) where
  pub write_value-Renders :
      {Value Spec : Type 0} (f : Formatter Value Spec) (value : Value) (given : Option Spec)
      (text : List ℕ)
      → Writes f value (spec_or given f.default) text
      → Renders this
          (write_value f this value given)
          (value_text this.buffer_size (this.buffer_size - this.buffer_pos) text)
  unfolding write_value value_text get_output_string is_success
  write_value-Renders f value given text law =
      let spec = spec_or given f.default in
      let n : ℕ = length text in
      let room : ℕ = this.buffer_size - this.buffer_pos in
      elim (lt-or-le this.buffer_size n) [
        | inl big ↦
            rw (write_value, law.measured, lt→ltb this.buffer_size n big)
              (inr (insufficient_buffer, this, [], refl, refl, nothing-Appends this stream))
        | inr le ↦ elim (lt-or-le room n) [
          | inl short ↦
              rw
                (
                  write_value,
                  law.measured,
                  get_output_string,
                  room_left this stream,
                  le→ltb this.buffer_size n le,
                  lt→leb n room short,
                  lt→ltb room n short,
                )
                (inl (refl, refl))
          | inr enough ↦
              let (final, e, here, kept) =
                law.written this.buffer (record { length = n; data_ptr = this.buffer_pos }) refl in
              rw
                (
                  write_value,
                  law.measured,
                  get_output_string,
                  room_left this stream,
                  le→ltb this.buffer_size n le,
                  le→leb n room enough,
                  le→ltb room n enough,
                  e,
                )
                (inr (
                  success,
                  record this { buffer = final; buffer_pos = u64 (this.buffer_pos + n) },
                  text,
                  refl,
                  refl,
                  filled-Appends this stream text final enough here kept,
                ))
        ]
      ]

  custom_filled :
      (failed : Bool) (bytes : List ℕ) (n : ℕ)
      → length bytes ≤ n
      → (failed ≡ true) ⊎ (length bytes ≡ n)
      → n ≤ this.buffer_size - this.buffer_pos
      → let filled : StringStream = record this {
        buffer = put this.buffer this.buffer_pos bytes;
        buffer_pos = u64 (this.buffer_pos + n);
      } in
        Renders this
          (some (if failed then (callback_failure, roll_back filled n) else (success, filled)))
          (some (if failed then (callback_failure, []) else (success, bytes)))
  unfolding roll_back
  custom_filled true bytes n inside exact room = inr (
    callback_failure,
    failed this stream n bytes,
    [],
    refl,
    refl,
    failed-Appends this stream n bytes inside room,
  )
  custom_filled false bytes n inside exact room =
      let all : length bytes ≡ n = elim exact [
        | inl bad ↦ absurd (ground (arith, bad))
        | inr e ↦ e
      ] in
      inr (
        success,
        appended this stream bytes,
        bytes,
        rw (sym all) refl,
        refl,
        appended-Appends this stream bytes (omega arith),
      )

  pub write_custom-Renders :
      (custom : Custom)
      → IsExactCustom custom
      → Renders this
          (write_custom this custom)
          (custom_text this.buffer_size (this.buffer_size - this.buffer_pos) custom)
  unfolding write_custom custom_text get_output_string
  write_custom-Renders custom law =
      let n : ℕ = custom.length in
      let room : ℕ = this.buffer_size - this.buffer_pos in
      elim (lt-or-le this.buffer_size n) [
        | inl big ↦
            rw (lt→ltb this.buffer_size n big)
              (inr (insufficient_buffer, this, [], refl, refl, nothing-Appends this stream))
        | inr le ↦ elim (lt-or-le room n) [
          | inl short ↦
              rw
                (
                  write_custom,
                  get_output_string,
                  room_left this stream,
                  le→ltb this.buffer_size n le,
                  lt→leb n room short,
                  lt→ltb room n short,
                )
                (inl (refl, refl))
          | inr enough ↦
              rw
                (
                  write_custom,
                  get_output_string,
                  room_left this stream,
                  le→ltb this.buffer_size n le,
                  le→leb n room enough,
                  le→ltb room n enough,
                )
                (custom_filled (custom.write n).0 (custom.write n).1 n law.inside law.exact enough)
        ]
      ]
