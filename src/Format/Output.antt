-- ===== src/Format/Output.antt =====
-- The output that shrinks as it is written: what it holds in front of the rest and behind it.
use cutl.Base.{
  ℕ, zero, suc, ◌+◌, ◌-◌, ◌≤◌, ◌<◌, ◌≡◌, ◌⊎◌, inl, inr, sym, ◌∙◌, ap, ap₂, subst, arith, List, [],
  ◌++◌, append-nil, append_assoc, length, length-append, le→leb, lt→leb, le→ltb, lt-or-le,
}
use cutl.Streams.{Buffer, put, get}
use cutl.Streams.Buffers.{put_outside, get_same, get_append, get-put}
use cutl.Strings.{String8, advance, shrink}
use cutl.Format.Write.{
  write_output_left, write_output_left_n, write_output_right, write_output_right_n,
}

-- Copies of a string, one behind the other.
abbrev pub repeated : ℕ → List ℕ → List ℕ
repeated zero str = []
repeated (suc k) str = str ++ repeated k str

repeated_comm : (k : ℕ) (str : List ℕ) → repeated k str ++ str ≡ str ++ repeated k str
repeated_comm zero str = sym (append-nil str)
repeated_comm (suc k) str =
    append_assoc str (repeated k str) str ∙ ap (λ t. str ++ t) (repeated_comm k str)

module _ (mem : Buffer) (base n : ℕ) where
  -- Of the `n` bytes from `base` on, the first are written and the last are, and the rest is the view.
  -- No byte outside them was written.
  pub record Written (now : Buffer) (view : String8) (first last : List ℕ) : Type 0 where
    pub size : length first + view.length + length last ≡ n
    pub place : (view.length ≡ 0) ⊎ (view.data_ptr ≡ base + length first)
    pub front : get now base (length first) ≡ first
    pub back : get now (base + length first + view.length) (length last) ≡ last
    pub kept : (j : ℕ) → (j < base) ⊎ (base + n ≤ j) → now j ≡ mem j

  module _ (now : Buffer) (view : String8) (first last : List ℕ) (w : Written now view first last)
      (str : List ℕ) (one : length str ≡ 1) (room : 1 ≤ view.length) where
    start : view.data_ptr ≡ base + length first
    start = elim w.place [ inl e ↦ absurd (omega arith) | inr e ↦ e ]

    advance_length :
        ((advance view (length str)).length ≡ view.length - 1)
        × ((view.length ≡ 1) ⊎ ((advance view (length str)).data_ptr ≡ base + length first + 1))
    unfolding advance
    advance_length = elim (lt-or-le (length str) view.length) [
      | inl lt ↦ rw (lt→leb view.length (length str) lt) (omega arith, inr (omega (arith, start)))
      | inr le ↦ rw (le→leb view.length (length str) le) (omega arith, inl (omega arith))
    ]

    pub left_step :
        Written
          (write_output_left (now, view) str).0
          (write_output_left (now, view) str).1
          (first ++ str)
          last
    unfolding write_output_left
    left_step =
        let (len, place) = advance_length in
        let total = length-append first str in
        let out = put now view.data_ptr str in
        let size = w.size in
        let at = start in
        record {
          size = omega arith;
          place = elim place [ inl e ↦ inl (omega arith) | inr e ↦ inr (omega arith) ];
          front =
              ap (λ k. get out base k) total
              ∙ get_append out base (length first) (length str)
              ∙ ap₂ (λ (x y : List ℕ). x ++ y)
                  (get_same out now base (length first)
                      (λ j low high. put_outside now view.data_ptr str j (inl (omega arith)))
                    ∙ w.front)
                  (ap (λ k. get out k (length str)) (sym at) ∙ get-put now view.data_ptr str);
          back =
              ap (λ k. get out k (length last)) (omega arith)
              ∙ get_same out now (base + length first + view.length) (length last)
                  (λ j low high. put_outside now view.data_ptr str j (inr (omega arith)))
              ∙ w.back;
          kept = λ j h.
              put_outside now view.data_ptr str j
                (elim h [ inl below ↦ inl (omega arith) | inr past ↦ inr (omega arith) ])
              ∙ w.kept j h;
        }

    shrink_length :
        ((shrink view (length str)).length ≡ view.length - 1)
        × ((shrink view (length str)).data_ptr ≡ base + length first)
    unfolding shrink
    shrink_length = rw (le→ltb view.length (length str) (omega arith)) (omega arith, start)

    pub right_step :
        Written
          (write_output_right (now, view) str).0
          (write_output_right (now, view) str).1
          first
          (str ++ last)
    unfolding write_output_right
    right_step =
        let (len, place) = shrink_length in
        let total = length-append str last in
        let place_at : ℕ = view.data_ptr + view.length - length str in
        let out = put now place_at str in
        let size = w.size in
        let at = start in
        let here : base + length first + (shrink view (length str)).length ≡ place_at =
          omega arith in
        let behind : place_at + length str ≡ base + length first + view.length = omega arith in
        record {
          size = omega arith;
          place = inr place;
          front =
              get_same out now base (length first)
                (λ j low high. put_outside now place_at str j (inl (omega arith)))
              ∙ w.front;
          back =
              ap₂ (λ k m. get out k m) here total
              ∙ get_append out place_at (length str) (length last)
              ∙ ap₂ (λ (x y : List ℕ). x ++ y) (get-put now place_at str)
                  (ap (λ k. get out k (length last)) behind
                    ∙ get_same out now (base + length first + view.length) (length last)
                        (λ j low high. put_outside now place_at str j (inr (omega arith)))
                    ∙ w.back);
          kept = λ j h.
              put_outside now place_at str j
                (elim h [ inl below ↦ inl (omega arith) | inr past ↦ inr (omega arith) ])
              ∙ w.kept j h;
        }

  -- An output that is a pair of the memory and the view.
  abbrev pub WrittenOut : Buffer × String8 → List ℕ → List ℕ → Type 0
  WrittenOut out first last = Written out.0 out.1 first last

  pub left_n :
      (k : ℕ) (now : Buffer) (view : String8) (first last str : List ℕ)
      → Written now view first last
      → (k ≡ 0) ⊎ (length str ≡ 1)
      → k ≤ view.length
      → WrittenOut (write_output_left_n (now, view) k str) (first ++ repeated k str) last
  unfolding write_output_left_n
  left_n zero now view first last str w h room =
      subst (λ t. Written now view t last) (sym (append-nil first)) w
  left_n (suc k) now view first last str w h room =
      let one : length str ≡ 1 = elim h [ inl e ↦ absurd (omega arith) | inr e ↦ e ] in
      let next = left_step now view first last w str one (omega arith) in
      let s = w.size in
      let s' = next.size in
      let total = length-append first str in
      let out = write_output_left (now, view) str in
      subst (λ t. WrittenOut (write_output_left_n out k str) t last)
        (append_assoc first str (repeated k str))
        (left_n k out.0 out.1 (first ++ str) last str next (inr one) (omega arith))

  pub right_n :
      (k : ℕ) (now : Buffer) (view : String8) (first last str : List ℕ)
      → Written now view first last
      → (k ≡ 0) ⊎ (length str ≡ 1)
      → k ≤ view.length
      → WrittenOut (write_output_right_n (now, view) k str) first (repeated k str ++ last)
  unfolding write_output_right_n
  right_n zero now view first last str w h room = w
  right_n (suc k) now view first last str w h room =
      let one : length str ≡ 1 = elim h [ inl e ↦ absurd (omega arith) | inr e ↦ e ] in
      let next = right_step now view first last w str one (omega arith) in
      let s = w.size in
      let s' = next.size in
      let total = length-append str last in
      let out = write_output_right (now, view) str in
      subst (λ t. WrittenOut (write_output_right_n out k str) first t)
        (sym (append_assoc (repeated k str) str last) ∙ ap (λ t. t ++ last) (repeated_comm k str))
        (right_n k out.0 out.1 first (str ++ last) str next (inr one) (omega arith))
