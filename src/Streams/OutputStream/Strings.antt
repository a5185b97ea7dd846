-- ===== src/Streams/OutputStream/Strings.antt =====
-- Strings into an output stream, for a file whose writes succeed.
use cutl.Base.{
  ℕ, zero, suc, ◌-◌, ◌≤◌, ◌<◌, ◌≡◌, inl, inr, refl, sym, ◌∙◌, ap, subst, arith, Option, none, some,
  List, [], ◌∷◌, ◌++◌, append-nil, append_assoc, ltb, if◌then◌else◌, length, sub64, lt→ltb, le→ltb,
  lt→leb, le→leb, eq→==, lt-or-le, take, drop, take-drop, take_all, length-take, length-drop,
}
use cutl.Errors.{Result, success}
use cutl.Streams.{put, get, is_success}
use cutl.Streams.Buffers.{put_outside, get_same}
use cutl.Streams.OutputStream.{
  FileOps, OutputStream, flush, copy_in, write_rest, write_u8, write_s8, cstr_loop, write_cstr,
}
use cutl.Streams.OutputStream.Contents.{
  IsReliable, IsStream, output, Adds, copy_in-Adds, room_left, flush-Adds,
}

module _ {File : Type 0} (ops : FileOps File) (contents : File → List ℕ)
    (law : IsReliable ops contents) where
  pub Adds-trans :
      (this next : OutputStream File) (r : Result × OutputStream File) (a b : List ℕ)
      → Adds ops contents this (success, next) a
      → Adds ops contents next r b
      → Adds ops contents this r (a ++ b)
  Adds-trans this next r a b p q = record {
    succeeded = q.succeeded;
    string = q.string ∙ ap (λ t. t ++ b) p.string ∙ append_assoc (output ops contents this) a b;
    valid = q.valid;
    size = q.size ∙ p.size;
  }

  pub as_success :
      (this : OutputStream File) (r : Result × OutputStream File) (a : List ℕ)
      → Adds ops contents this r a
      → Adds ops contents this (success, r.1) a
  as_success this r a p = record {
    succeeded = refl;
    string = p.string;
    valid = p.valid;
    size = p.size;
  }

  write_rest-Adds :
      (this : OutputStream File) (bytes : List ℕ)
      → IsStream this
      → this.buffer_pos ≡ 0
      → Adds ops contents this (write_rest ops this bytes) bytes
  unfolding write_rest output get
  write_rest-Adds this bytes stream at_start = elim (lt-or-le (length bytes) this.buffer_size) [
    | inl lt ↦
        rw (lt→leb this.buffer_size (length bytes) lt)
          (copy_in-Adds ops contents this stream bytes (omega arith))
    | inr le ↦
        let direct : OutputStream File = record this {
          stream = (ops.fwrite this.stream bytes).1;
        } in
        let added : Adds ops contents this (success, direct) bytes = record {
          succeeded = refl;
          string = rw at_start (
              append-nil _
              ∙ law.fwrite_contents this.stream bytes
              ∙ ap (λ t. t ++ bytes) (sym (append-nil _)));
          valid = record { fits = stream.fits; small = stream.small };
          size = refl;
        } in
        rw
          (
            le→leb this.buffer_size (length bytes) le,
            eq→== (ops.fwrite this.stream bytes).0 (length bytes)
                (law.fwrite_count this.stream bytes),
          )
          added
  ]

  -- Bytes behind the position do not count.
  abbrev copied : OutputStream File → List ℕ → OutputStream File
  copied this bytes = record this { buffer = put this.buffer this.buffer_pos bytes }

  output-copied :
      (this : OutputStream File) (bytes : List ℕ)
      → output ops contents (copied this bytes) ≡ output ops contents this
  unfolding output
  output-copied this bytes =
      ap (λ t. contents this.stream ++ t)
        (get_same _ _ 0 this.buffer_pos
          (λ j low high. put_outside this.buffer this.buffer_pos bytes j (inl (omega arith))))

  of_copied :
      (this : OutputStream File) (bytes : List ℕ) (r : Result × OutputStream File) (a : List ℕ)
      → Adds ops contents (copied this bytes) r a
      → Adds ops contents this r a
  of_copied this bytes r a p = record {
    succeeded = p.succeeded;
    string = p.string ∙ ap (λ t. t ++ a) (output-copied this bytes);
    valid = p.valid;
    size = p.size;
  }

  write_u8-Adds :
      (this : OutputStream File) (bytes : List ℕ)
      → IsStream this
      → Adds ops contents this (write_u8 ops this bytes) (
          if ltb (this.buffer_size - this.buffer_pos) (length bytes)
          then drop (this.buffer_size - this.buffer_pos) bytes
          else bytes)
  unfolding write_u8 is_success
  write_u8-Adds this bytes stream =
      let room : ℕ = this.buffer_size - this.buffer_pos in
      elim (lt-or-le room (length bytes)) [
        | inr le ↦
            rw (room_left ops contents this stream, le→ltb room (length bytes) le)
              (copy_in-Adds ops contents this stream bytes le)
        | inl lt ↦
            let mid : OutputStream File = copied this (take room bytes) in
            let mid_stream : IsStream mid = record { fits = stream.fits; small = stream.small } in
            let (emptied, at_start) = flush-Adds ops contents mid mid_stream law in
            let next : OutputStream File = (flush ops mid).1 in
            let rest = write_rest-Adds next (drop room bytes) emptied.valid at_start in
            let whole =
              of_copied this (take room bytes) _ (drop room bytes)
                (Adds-trans mid next _ [] (drop room bytes) (as_success mid _ [] emptied) rest) in
            rw
              (room_left ops contents this stream, lt→ltb room (length bytes) lt, emptied.succeeded)
              whole
      ]

  -- With a file whose writes succeed and a valid stream: a string that fits behind the position is
  -- added to the output. Of one that does not, the part that would have
  -- fitted is lost, and only the rest of it is added. In both cases the result is a success.
  pub write_s8-output :
      (this : OutputStream File) (str : List ℕ)
      → IsStream this
      → ((write_s8 ops this str).0 ≡ success)
        × (output ops contents (write_s8 ops this str).1
            ≡ output ops contents this
              ++ (if ltb (this.buffer_size - this.buffer_pos) (length str)
                  then drop (this.buffer_size - this.buffer_pos) str
                  else str))
        × IsStream (write_s8 ops this str).1
  unfolding write_s8
  write_s8-output this str stream =
      let p = write_u8-Adds this str stream in (p.succeeded, p.string, p.valid)

  abbrev Ends : OutputStream File → List ℕ → Option (Result × OutputStream File) → Type 0
  Ends this str outcome =
      (r : Result × OutputStream File) × (outcome ≡ some r) × Adds ops contents this r str

  -- One round of the loop: the string fits, or the buffer is filled and flushed and the loop goes on.
  cstr_round :
      (rounds : ℕ) (this : OutputStream File) (str : List ℕ)
      → IsStream this
      → ((next : OutputStream File)
          → IsStream next
          → next.buffer_pos ≡ 0
          → next.buffer_size ≡ this.buffer_size
          → this.buffer_size - this.buffer_pos < length str
          → Ends next
              (drop (this.buffer_size - this.buffer_pos) str)
              (cstr_loop ops rounds next (drop (this.buffer_size - this.buffer_pos) str)))
      → Ends this str (cstr_loop ops (suc rounds) this str)
  unfolding cstr_loop is_success
  cstr_round rounds this str stream rest =
      let room : ℕ = this.buffer_size - this.buffer_pos in
      let filled : OutputStream File = copy_in ops this (take room str) in
      let added = copy_in-Adds ops contents this stream (take room str) (length-take room str) in
      elim (lt-or-le room (length str)) [
        | inr le ↦
            rw (room_left ops contents this stream, le→leb (length str) room le)
              (
                (success, filled),
                refl,
                subst (λ t. Adds ops contents this (success, filled) t) (take_all room str le)
                    added,
              )
        | inl lt ↦
            let (emptied, at_start) = flush-Adds ops contents filled added.valid law in
            let next : OutputStream File = (flush ops filled).1 in
            let (r, e, more) = rest next emptied.valid at_start (emptied.size ∙ added.size) lt in
            let twice =
              Adds-trans this filled _ (take room str) [] added (as_success filled _ [] emptied) in
            let whole = Adds-trans this next r _ (drop room str) twice more in
            rw (room_left ops contents this stream, lt→leb (length str) room lt, emptied.succeeded)
              (
                r,
                e,
                subst (λ t. Adds ops contents this r t)
                    (ap (λ t. t ++ drop room str) (append-nil (take room str)) ∙ take-drop room str)
                    whole,
              )
      ]

  cstr_loop-Ends :
      (rounds : ℕ) (this : OutputStream File) (str : List ℕ)
      → IsStream this
      → this.buffer_pos ≡ 0
      → 0 < this.buffer_size
      → 1 ≤ rounds
      → length str ≤ rounds
      → Ends this str (cstr_loop ops rounds this str)
  cstr_loop-Ends zero this str stream at_start some_size one enough = absurd (omega arith)
  cstr_loop-Ends (suc rounds) this str stream at_start some_size one enough =
      let room : ℕ = this.buffer_size - this.buffer_pos in
      cstr_round rounds this str stream (λ next valid start size lt.
        cstr_loop-Ends rounds next (drop room str) valid start (omega (arith, size)) (omega arith)
          (omega (arith, length-drop room str)))

  -- With a file whose writes succeed and a valid stream: a C string is added as a whole, over as many flushes as it takes, when the buffer can hold a byte
  -- at least: the loop ends with a success.
  pub write_cstr-output :
      (this : OutputStream File) (str : List ℕ)
      → IsStream this
      → 0 < this.buffer_size
      → (next : OutputStream File) × (write_cstr ops this str ≡ some (success, next))
        × (output ops contents next ≡ output ops contents this ++ str)
        × IsStream next
  unfolding write_cstr
  write_cstr-output this str stream some_size =
      let room : ℕ = this.buffer_size - this.buffer_pos in
      let (r, e, p) = cstr_round (length str) this str stream (λ next valid start size lt.
        cstr_loop-Ends (length str) next (drop room str) valid start (omega (arith, size))
          (omega arith) (omega (arith, length-drop room str))) in
      (r.1, e ∙ ap (λ (res : Result). some (res, r.1)) p.succeeded, p.string, p.valid)

flush_nothing :
    {File : Type 0} (ops : FileOps File) (this : OutputStream File)
    → this.buffer_pos ≡ 0
    → flush ops this ≡ (success, this)
unfolding flush
flush_nothing ops this e = rw (eq→== this.buffer_pos 0 e) refl

-- With a buffer of no bytes and the position at its start, the loop does not end for a string of some bytes, however many rounds it
-- is given, whatever the file does: it neither writes a byte nor returns.
pub cstr_loop_stuck :
    {File : Type 0} (ops : FileOps File) (rounds : ℕ) (this : OutputStream File) (b : ℕ)
    (str : List ℕ)
    → this.buffer_size ≡ 0
    → this.buffer_pos ≡ 0
    → cstr_loop ops rounds this (b ∷ str) ≡ none
unfolding cstr_loop copy_in is_success
cstr_loop_stuck ops zero this b str no_size at_start = refl
cstr_loop_stuck ops (suc rounds) this b str no_size at_start =
    let room : sub64 this.buffer_size this.buffer_pos ≡ 0 = omega arith in
    let filled = copy_in ops this [] in
    let start : filled.buffer_pos ≡ 0 = omega arith in
    let rest : cstr_loop ops rounds filled (b ∷ str) ≡ none =
      cstr_loop_stuck ops rounds filled b str no_size start in
    rw (room, lt→leb (suc (length str)) 0 (omega arith), flush_nothing ops filled start) rest
