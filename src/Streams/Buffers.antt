-- ===== src/Streams/Buffers.antt =====
-- What reading a buffer gives after bytes were put into it.
use cutl.Base.{
  ℕ, zero, suc, ◌+◌, ◌≤◌, ◌<◌, ◌≡◌, ◌≢◌, ◌⊎◌, inl, inr, refl, sym, ◌∙◌, ap, ap₂, arith, List, [],
  ◌∷◌, ◌++◌, length, eq→==, ne→==, if◌then◌else◌, ◌==◌,
}
use cutl.Streams.{Buffer, put, get}

pub put_outside :
    (buffer : Buffer) (i : ℕ) (bs : List ℕ) (j : ℕ)
    → (j < i) ⊎ (i + length bs ≤ j)
    → put buffer i bs j ≡ buffer j
unfolding put
put_outside buffer i [] j h = refl
put_outside buffer i (b ∷ bs) j h =
    let other : j ≢ i = elim h [ inl below ↦ omega arith | inr above ↦ omega arith ] in
    put_outside (λ k. if k == i then b else buffer k) (i + 1) bs j
      (elim h [ inl below ↦ inl (omega arith) | inr above ↦ inr (omega arith) ])
    ∙ rw (ne→== j i other) refl

pub get_same :
    (a b : Buffer) (i n : ℕ) → ((j : ℕ) → i ≤ j → j < i + n → a j ≡ b j) → get a i n ≡ get b i n
unfolding get
get_same a b i zero h = refl
get_same a b i (suc n) h =
    ap₂ (λ (x : ℕ) (xs : List ℕ). x ∷ xs) (h i (omega arith) (omega arith))
      (get_same a b (i + 1) n (λ j low high. h j (omega arith) (omega arith)))

pub get_append :
    (buffer : Buffer) (i m n : ℕ) → get buffer i (m + n) ≡ get buffer i m ++ get buffer (i + m) n
unfolding get
get_append buffer i zero n =
    let e : 0 + n ≡ n = omega arith in
    let z : i + 0 ≡ i = omega arith in ap (λ k. get buffer i k) e ∙ ap (λ k. get buffer k n) (sym z)
get_append buffer i (suc m) n =
    let e : suc m + n ≡ suc (m + n) = omega arith in
    let z : i + 1 + m ≡ i + suc m = omega arith in
    ap (λ k. get buffer i k) e
    ∙ ap (λ bs. buffer i ∷ bs)
        (get_append buffer (i + 1) m n ∙ ap (λ k. get buffer (i + 1) m ++ get buffer k n) z)

pub get-put : (buffer : Buffer) (i : ℕ) (bs : List ℕ) → get (put buffer i bs) i (length bs) ≡ bs
unfolding get put
get-put buffer i [] = refl
get-put buffer i (b ∷ bs) =
    ap₂ (λ (x : ℕ) (xs : List ℕ). x ∷ xs)
      (put_outside (λ k. if k == i then b else buffer k) (i + 1) bs i (inl (omega arith))
        ∙ rw (eq→== i i refl) refl)
      (get-put (λ k. if k == i then b else buffer k) (i + 1) bs)

-- Appending: a prefix of the buffer, then the bytes that were put behind it.
pub get-put_behind :
    (buffer : Buffer) (n : ℕ) (bs : List ℕ)
    → get (put buffer n bs) 0 (n + length bs) ≡ get buffer 0 n ++ bs
get-put_behind buffer n bs =
    let z : 0 + n ≡ n = omega arith in
    get_append (put buffer n bs) 0 n (length bs)
    ∙ ap₂ (λ (x y : List ℕ). x ++ y)
        (get_same _ _ 0 n (λ j low high. put_outside buffer n bs j (inl (omega arith))))
        (ap (λ k. get (put buffer n bs) k (length bs)) z ∙ get-put buffer n bs)
