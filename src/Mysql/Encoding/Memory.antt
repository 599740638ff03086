-- ===== src/Mysql/Encoding/Memory.antt =====
-- What writes into a packet leave behind: a write that fits is a splice, and reads see it.
use native.Mathlib.Nat.{zero-add, suc-add}
use arana.Prelude.{
  ℕ, zero, suc, ◌+◌, ◌≤◌, ◌<◌, ◌≡◌, ◌⊎◌, inl, inr, refl, ap, ◌∙◌, [], ◌∷◌, ◌++◌, arith, length,
  length-drop, length-set, get_elem?, set, take, drop, length-append,
}
use arana.Prelude.Go.{Go, ret, panic, ◌>>=◌}
use arana.Mysql.Encoding.{Bytes, put, write_at, overwrite, slice, at}

-- the packet with `bs` in place of the bytes from `pos` on
abbrev pub splice : Bytes → ℕ → Bytes → Bytes
splice xs zero bs = bs ++ drop (length bs) xs
splice [] (suc pos) bs = []
splice (x ∷ xs) (suc pos) bs = x ∷ splice xs pos bs

abbrev push : ℕ → Go Bytes → Go Bytes
push x m = m >>= λ d. ret (x ∷ d)

write_at-cons :
    (x : ℕ) (xs : Bytes) (pos : ℕ) (bs : Bytes)
    → write_at (x ∷ xs) (suc pos) bs ≡ push x (write_at xs pos bs)
unfolding put write_at
write_at-cons x xs pos [] = refl
write_at-cons x xs pos (b ∷ bs) = ground (arith, write_at-cons x (set xs pos b) (suc pos) bs)

write_at-front :
    (bs xs : Bytes) → length bs ≤ length xs → write_at xs 0 bs ≡ ret (bs ++ drop (length bs) xs)
unfolding put write_at
write_at-front [] xs h = refl
write_at-front (b ∷ bs) [] h = absurd (omega arith)
write_at-front (b ∷ bs) (x ∷ xs) h =
    ground (arith, write_at-cons b xs 0 bs, write_at-front bs xs (omega arith))

pub write_at-splice :
    (pos : ℕ) (xs bs : Bytes)
    → pos + length bs ≤ length xs
    → write_at xs pos bs ≡ ret (splice xs pos bs)
write_at-splice zero xs bs h = write_at-front bs xs (omega arith)
write_at-splice (suc pos) [] bs h = absurd (omega arith)
write_at-splice (suc pos) (x ∷ xs) bs h =
    rw (write_at-cons x xs pos bs, write_at-splice pos xs bs (omega arith))

overwrite-cons :
    (x : ℕ) (xs : Bytes) (pos : ℕ) (bs : Bytes)
    → overwrite (x ∷ xs) (suc pos) bs ≡ x ∷ overwrite xs pos bs
unfolding overwrite
overwrite-cons x xs pos [] = refl
overwrite-cons x xs pos (b ∷ bs) = overwrite-cons x (set xs pos b) (suc pos) bs

overwrite-front :
    (bs xs : Bytes) → length bs ≤ length xs → overwrite xs 0 bs ≡ bs ++ drop (length bs) xs
unfolding overwrite
overwrite-front [] xs h = refl
overwrite-front (b ∷ bs) [] h = absurd (omega arith)
overwrite-front (b ∷ bs) (x ∷ xs) h =
    overwrite-cons b xs 0 bs ∙ ap (λ ys. b ∷ ys) (overwrite-front bs xs (omega arith))

pub overwrite-splice :
    (pos : ℕ) (xs bs : Bytes) → pos + length bs ≤ length xs → overwrite xs pos bs ≡ splice xs pos bs
overwrite-splice zero xs bs h = overwrite-front bs xs (omega arith)
overwrite-splice (suc pos) [] bs h = absurd (omega arith)
overwrite-splice (suc pos) (x ∷ xs) bs h =
    overwrite-cons x xs pos bs ∙ ap (λ ys. x ∷ ys) (overwrite-splice pos xs bs (omega arith))

pub length-splice :
    (pos : ℕ) (xs bs : Bytes) → pos + length bs ≤ length xs → length (splice xs pos bs) ≡ length xs
length-splice zero xs bs h =
    omega (arith, length-append {0} bs (drop (length bs) xs), length-drop {0} (length bs) xs)
length-splice (suc pos) [] bs h = refl
length-splice (suc pos) (x ∷ xs) bs h = ap suc (length-splice pos xs bs (omega arith))

get-append : (bs ys : Bytes) (k : ℕ) → k < length bs → get_elem? (bs ++ ys) k ≡ get_elem? bs k
get-append [] ys k h = absurd (omega arith)
get-append (b ∷ bs) ys zero h = refl
get-append (b ∷ bs) ys (suc k) h = get-append bs ys k (omega arith)

get-splice :
    (pos : ℕ) (xs bs : Bytes) (k : ℕ)
    → pos + length bs ≤ length xs
    → k < length bs
    → get_elem? (splice xs pos bs) (pos + k) ≡ get_elem? bs k
get-splice zero xs bs k h lt = rw zero-add (get-append bs (drop (length bs) xs) k lt)
get-splice (suc pos) [] bs k h lt = absurd (omega arith)
get-splice (suc pos) (x ∷ xs) bs k h lt = rw suc-add (get-splice pos xs bs k (omega arith) lt)

-- reading back what was written
pub at-splice :
    (pos : ℕ) (xs bs : Bytes) (k : ℕ)
    → pos + length bs ≤ length xs
    → k < length bs
    → at (splice xs pos bs) (pos + k) ≡ at bs k
unfolding at
at-splice pos xs bs k h lt = rw (get-splice pos xs bs k h lt, at)

get-after :
    (bs xs : Bytes) (j : ℕ)
    → length bs ≤ length xs
    → length bs ≤ j
    → get_elem? (bs ++ drop (length bs) xs) j ≡ get_elem? xs j
get-after [] xs j h le = refl
get-after (b ∷ bs) [] j h le = absurd (omega arith)
get-after (b ∷ bs) (x ∷ xs) zero h le = absurd (omega arith)
get-after (b ∷ bs) (x ∷ xs) (suc j) h le = get-after bs xs j (omega arith) (omega arith)

-- the bytes outside stay
pub get-splice_outside :
    (pos : ℕ) (xs bs : Bytes) (j : ℕ)
    → pos + length bs ≤ length xs
    → (j < pos) ⊎ (pos + length bs ≤ j)
    → get_elem? (splice xs pos bs) j ≡ get_elem? xs j
get-splice_outside zero xs bs j h (inl lt) = absurd (omega arith)
get-splice_outside zero xs bs j h (inr le) = get-after bs xs j (omega arith) (omega arith)
get-splice_outside (suc pos) [] bs j h out = refl
get-splice_outside (suc pos) (x ∷ xs) bs zero h out = refl
get-splice_outside (suc pos) (x ∷ xs) bs (suc j) h (inl lt) =
    get-splice_outside pos xs bs j (omega arith) (inl (omega arith))
get-splice_outside (suc pos) (x ∷ xs) bs (suc j) h (inr le) =
    get-splice_outside pos xs bs j (omega arith) (inr (omega arith))

take-append : (bs ys : Bytes) → take (length bs) (bs ++ ys) ≡ bs
take-append [] ys = refl
take-append (b ∷ bs) ys = rw (take-append bs ys)

drop-splice :
    (pos : ℕ) (xs bs : Bytes)
    → pos + length bs ≤ length xs
    → take (length bs) (drop pos (splice xs pos bs)) ≡ bs
drop-splice zero xs bs h = take-append bs (drop (length bs) xs)
drop-splice (suc pos) [] bs h = absurd (omega arith)
drop-splice (suc pos) (x ∷ xs) bs h = drop-splice pos xs bs (omega arith)

pub slice-splice :
    (pos : ℕ) (xs bs : Bytes)
    → pos + length bs ≤ length xs
    → slice (splice xs pos bs) pos (pos + length bs) ≡ ret bs
unfolding slice
slice-splice pos xs bs h = ground (arith, length-splice pos xs bs h, drop-splice pos xs bs h)

-- A write of at least one byte that does not fit panics.
pub write_at-panics :
    (pos : ℕ) (xs bs : Bytes)
    → 1 ≤ length bs
    → length xs < pos + length bs
    → write_at xs pos bs ≡ panic
unfolding put write_at
write_at-panics pos xs [] one h = absurd (omega arith)
write_at-panics pos xs (b ∷ []) one h = ground arith
write_at-panics pos xs (b ∷ c ∷ bs) one h =
    ground (arith, write_at-panics (suc pos) (set xs pos b) (c ∷ bs), length-set xs pos b)
