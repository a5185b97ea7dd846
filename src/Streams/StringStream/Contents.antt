-- ===== src/Streams/StringStream/Contents.antt =====
-- What each operation does to the string in the stream.
use cutl.Base.{
  ℕ, ◌+◌, ◌-◌, ◌^◌, ◌≤◌, ◌<◌, ◌≡◌, ◌⊎◌, inl, inr, refl, sym, ◌∙◌, ap, ap₂, arith, true, Option,
  none, some, List, [], ◌++◌, append-nil, ltb, if◌then◌else◌, length, u64, sub64,
}
use cutl.Errors.{Result, success, insufficient_buffer, callback_failure}
use cutl.Strings.{String8}
use cutl.Streams.{Buffer, put, get, Formatter, Custom}
use cutl.Streams.Buffers.{get_same, get_append, put_outside, get-put_behind}
use cutl.Streams.StringStream.{StringStream, get_string}

-- The position is inside the buffer.
pub record IsStream (this : StringStream) : Type 0 where
  pub fits : this.buffer_pos ≤ this.buffer_size
  pub small : this.buffer_size < 2 ^ 64

-- `next` holds the string of `this` and `text` behind it. Nothing in front of the position and
-- nothing outside the buffer was written.
pub record Appends (this next : StringStream) (text : List ℕ) : Type 0 where
  pub string : get_string next ≡ get_string this ++ text
  pub valid : IsStream next
  pub size : next.buffer_size ≡ this.buffer_size
  pub pos : next.buffer_pos ≡ this.buffer_pos + length text
  pub kept :
      (j : ℕ) → (j < this.buffer_pos) ⊎ (this.buffer_size ≤ j) → next.buffer j ≡ this.buffer j

module _ (this : StringStream) (stream : IsStream this) where
  pub nothing-Appends : Appends this this []
  nothing-Appends = record {
    string = sym (append-nil _);
    valid = stream;
    size = refl;
    pos = omega arith;
    kept = λ j h. refl;
  }

  abbrev pub appended : List ℕ → StringStream
  appended text = record this {
    buffer = put this.buffer this.buffer_pos text;
    buffer_pos = u64 (this.buffer_pos + length text);
  }

  pub appended-Appends :
      (text : List ℕ)
      → length text ≤ this.buffer_size - this.buffer_pos
      → Appends this (appended text) text
  unfolding get_string
  appended-Appends text room =
      let fits = stream.fits in
      let small = stream.small in
      let e : u64 (this.buffer_pos + length text) ≡ this.buffer_pos + length text = omega arith in
      record {
        string = rw e (get-put_behind this.buffer this.buffer_pos text);
        valid = record { fits = omega arith; small = small };
        size = refl;
        pos = e;
        kept = λ j h.
            put_outside this.buffer this.buffer_pos text j
              (elim h [ inl below ↦ inl below | inr past ↦ inr (omega arith) ]);
      }

-- The functions of a formatter for a value: the length is that of the text, and into an output of
-- this length the text is written, and nothing outside it.
pub record Writes {Value Spec : Type 0} (f : Formatter Value Spec) (value : Value) (spec : Spec)
    (text : List ℕ) : Type 0 where
  pub measured : f.length_function value spec ≡ some (length text)
  pub written :
      (mem : Buffer) (output : String8)
      → output.length ≡ length text
      → (final : Buffer) × (f.write_function value mem output spec ≡ some (success, final))
        × (get final output.data_ptr (length text) ≡ text)
        × ((j : ℕ) → (j < output.data_ptr) ⊎ (output.data_ptr + length text ≤ j) → final j ≡ mem j)

-- What the text of a value adds to a string in a buffer of `size` bytes, `room` of which are left.
unfoldable pub value_text : ℕ → ℕ → List ℕ → Option (Result × List ℕ)
value_text size room text =
    if ltb size (length text)
    then some (insufficient_buffer, [])
    else if ltb room (length text)
    then none
    else some (success, text)

unfoldable pub custom_text : ℕ → ℕ → Custom → Option (Result × List ℕ)
custom_text size room custom =
    let n = custom.length in
    let (failed, bytes) = custom.write n in
    if ltb size n
    then some (insufficient_buffer, [])
    else if ltb room n
    then none
    else some (if failed then (callback_failure, []) else (success, bytes))

-- What the functions of a custom value promise: to fill the output or fail, and never to write past
-- it.
pub record IsExactCustom (custom : Custom) : Type 0 where
  pub inside : length (custom.write custom.length).1 ≤ custom.length
  pub exact :
      ((custom.write custom.length).0 ≡ true)
      ⊎ (length (custom.write custom.length).1 ≡ custom.length)

-- An outcome of the stream that agrees with an outcome of the description.
abbrev pub Renders :
    StringStream → Option (Result × StringStream) → Option (Result × List ℕ) → Type 0
Renders this outcome text =
    ((outcome ≡ none) × (text ≡ none))
    ⊎ ((res : Result) × (next : StringStream) × (bs : List ℕ) × (outcome ≡ some (res, next))
        × (text ≡ some (res, bs))
        × Appends this next bs)

module _ (this : StringStream) (stream : IsStream this) where
  pub room_left : sub64 this.buffer_size this.buffer_pos ≡ this.buffer_size - this.buffer_pos
  room_left = let fits = stream.fits in let small = stream.small in omega arith

  -- A failed write leaves bytes behind the position only.
  abbrev pub failed : ℕ → List ℕ → StringStream
  failed n bytes = record this {
    buffer = put this.buffer this.buffer_pos bytes;
    buffer_pos = sub64 (u64 (this.buffer_pos + n)) n;
  }

  pub failed-Appends :
      (n : ℕ) (bytes : List ℕ)
      → length bytes ≤ n
      → n ≤ this.buffer_size - this.buffer_pos
      → Appends this (failed n bytes) []
  unfolding get_string
  failed-Appends n bytes inside room =
      let fits = stream.fits in
      let small = stream.small in
      let e : sub64 (u64 (this.buffer_pos + n)) n ≡ this.buffer_pos = omega arith in
      record {
        string = rw e (
            get_same _ _ 0 this.buffer_pos
              (λ j low high. put_outside this.buffer this.buffer_pos bytes j (inl (omega arith)))
            ∙ sym (append-nil _));
        valid = record { fits = omega arith; small = small };
        size = refl;
        pos = omega arith;
        kept = λ j h.
            put_outside this.buffer this.buffer_pos bytes j
              (elim h [ inl below ↦ inl below | inr past ↦ inr (omega arith) ]);
      }

  -- A buffer that holds the text behind the position, and is otherwise the same.
  pub filled-Appends :
      (text : List ℕ) (final : Buffer)
      → length text ≤ this.buffer_size - this.buffer_pos
      → get final this.buffer_pos (length text) ≡ text
      → ((j : ℕ)
          → (j < this.buffer_pos) ⊎ (this.buffer_pos + length text ≤ j)
          → final j ≡ this.buffer j)
      → Appends this
          (record this { buffer = final; buffer_pos = u64 (this.buffer_pos + length text) })
          text
  unfolding get_string
  filled-Appends text final room here kept =
      let fits = stream.fits in
      let small = stream.small in
      let e : u64 (this.buffer_pos + length text) ≡ this.buffer_pos + length text = omega arith in
      let z : 0 + this.buffer_pos ≡ this.buffer_pos = omega arith in
      record {
        string = rw e (
            get_append final 0 this.buffer_pos (length text)
            ∙ ap₂ (λ (x y : List ℕ). x ++ y)
                (get_same final this.buffer 0 this.buffer_pos
                  (λ j low high. kept j (inl (omega arith))))
                (ap (λ k. get final k (length text)) z ∙ here));
        valid = record { fits = omega arith; small = small };
        size = refl;
        pos = e;
        kept = λ j h. kept j (elim h [ inl below ↦ inl below | inr past ↦ inr (omega arith) ]);
      }
