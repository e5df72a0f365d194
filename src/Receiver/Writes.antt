-- ===== src/Receiver/Writes.antt =====
-- What a file holds after a write at an offset, `seekp` and `write` of
-- src/receiver/yisync_receiver.cpp.
use yisync.Common.{
  length-drop, ℕ, zero, suc, ◌+◌, ◌-◌, ◌≤◌, ◌<◌, max, ◌≡◌, refl, ap, subst, ◌⊎◌, List, [], ◌∷◌,
  ◌++◌, some, arith, length, take, drop, get_elem?, length-append,
}
use yisync.Protocol.Message.{Bytes}
use yisync.Receiver.Chunked.{write_at, write_file}

pub length-take_le : {A : Type 0} (n : ℕ) (xs : List A) → length (take n xs) ≤ length xs
length-take_le zero xs = omega arith
length-take_le (suc n) [] = omega arith
length-take_le (suc n) (x ∷ xs) = omega (arith, length-take_le n xs)

pub elem-lt : (xs : Bytes) (p x : ℕ) → get_elem? xs p ≡ some x → p < length xs
elem-lt [] p x e = cc e
elem-lt (y ∷ xs) zero x e = omega arith
elem-lt (y ∷ xs) (suc p) x e = omega (arith, elem-lt xs p x e)

elem-append_front :
    (xs ys : Bytes) (p x : ℕ) → get_elem? xs p ≡ some x → get_elem? (xs ++ ys) p ≡ some x
elem-append_front [] ys p x e = cc e
elem-append_front (y ∷ xs) ys zero x e = e
elem-append_front (y ∷ xs) ys (suc p) x e = elem-append_front xs ys p x e

-- Behind the bytes written, the file is as before.
elem-overlay :
    (bs file : Bytes) (p x : ℕ)
    → length bs ≤ p
    → get_elem? file p ≡ some x
    → get_elem? (bs ++ drop (length bs) file) p ≡ some x
elem-overlay [] file p x h e = e
elem-overlay (b ∷ bs) [] p x h e = cc e
elem-overlay (b ∷ bs) (y ∷ file) zero x h e = absurd (omega (arith, h))
elem-overlay (b ∷ bs) (y ∷ file) (suc p) x h e = elem-overlay bs file p x (omega (arith, h)) e

-- The bytes written are in the file.
elem-write_at_inside :
    (offset : ℕ) (bs file : Bytes) (p x : ℕ)
    → offset ≤ p
    → get_elem? bs (p - offset) ≡ some x
    → get_elem? (write_at offset bs file) p ≡ some x
unfolding write_at
elem-write_at_inside zero bs file p x h e =
    elem-append_front bs _ p x (subst (λ k. get_elem? bs k ≡ some x) (omega arith) e)
elem-write_at_inside (suc n) bs file zero x h e = absurd (omega arith)
elem-write_at_inside (suc n) bs [] (suc p) x h e =
    elem-write_at_inside n bs [] p x (omega arith)
      (subst (λ k. get_elem? bs k ≡ some x) (omega arith) e)
elem-write_at_inside (suc n) bs (y ∷ file) (suc p) x h e =
    elem-write_at_inside n bs file p x (omega arith)
      (subst (λ k. get_elem? bs k ≡ some x) (omega arith) e)

-- The other bytes of the file are kept.
elem-write_at_outside :
    (offset : ℕ) (bs file : Bytes) (p x : ℕ)
    → (p < offset) ⊎ (offset + length bs ≤ p)
    → get_elem? file p ≡ some x
    → get_elem? (write_at offset bs file) p ≡ some x
unfolding write_at
elem-write_at_outside zero bs file p x h e = elem-overlay bs file p x (ground (arith, h)) e
elem-write_at_outside (suc n) bs [] p x h e = cc e
elem-write_at_outside (suc n) bs (y ∷ file) zero x h e = e
elem-write_at_outside (suc n) bs (y ∷ file) (suc p) x h e =
    elem-write_at_outside n bs file p x (ground (arith, h)) e

length-write_at :
    (offset : ℕ) (bs file : Bytes)
    → length (write_at offset bs file) ≡ max (length file) (offset + length bs)
unfolding write_at
length-write_at zero bs file =
    omega (arith, length-append bs (drop (length bs) file), length-drop (length bs) file)
length-write_at (suc n) bs [] = omega (arith, length-write_at n bs [])
length-write_at (suc n) bs (y ∷ file) = omega (arith, length-write_at n bs file)

-- The same of `write_file`, which writes nothing where there is nothing to write.
pub elem-write_file_inside :
    (offset : ℕ) (bs file : Bytes) (p x : ℕ)
    → offset ≤ p
    → get_elem? bs (p - offset) ≡ some x
    → get_elem? (write_file offset bs file) p ≡ some x
unfolding write_file
elem-write_file_inside offset [] file p x h e = cc e
elem-write_file_inside offset (b ∷ bs) file p x h e =
    elem-write_at_inside offset (b ∷ bs) file p x h e

pub elem-write_file_outside :
    (offset : ℕ) (bs file : Bytes) (p x : ℕ)
    → (p < offset) ⊎ (offset + length bs ≤ p)
    → get_elem? file p ≡ some x
    → get_elem? (write_file offset bs file) p ≡ some x
unfolding write_file
elem-write_file_outside offset [] file p x h e = e
elem-write_file_outside offset (b ∷ bs) file p x h e =
    elem-write_at_outside offset (b ∷ bs) file p x h e

pub length-write_file :
    (offset : ℕ) (bs file : Bytes)
    → length (write_file offset bs file) ≤ max (length file) (offset + length bs)
unfolding write_file
length-write_file offset [] file = omega arith
length-write_file offset (b ∷ bs) file = omega (arith, length-write_at offset (b ∷ bs) file)

-- A byte of a slice.
pub elem-slice :
    (offset len : ℕ) (source : Bytes) (p x : ℕ)
    → offset ≤ p
    → p < offset + len
    → get_elem? source p ≡ some x
    → get_elem? (take len (drop offset source)) (p - offset) ≡ some x
elem-slice zero len source p x h k e =
    subst (λ i. get_elem? (take len source) i ≡ some x) (omega arith) (front len source p k e)
  where
    front :
        (len : ℕ) (source : Bytes) (p : ℕ)
        → p < zero + len
        → get_elem? source p ≡ some x
        → get_elem? (take len source) p ≡ some x
    front zero source p k e = absurd (omega arith)
    front (suc len) [] p k e = cc e
    front (suc len) (y ∷ source) zero k e = e
    front (suc len) (y ∷ source) (suc p) k e = front len source p (omega arith) e
elem-slice (suc offset) len [] p x h k e = cc e
elem-slice (suc offset) len (y ∷ source) zero x h k e = absurd (omega arith)
elem-slice (suc offset) len (y ∷ source) (suc p) x h k e =
    subst (λ i. get_elem? (take len (drop offset source)) i ≡ some x) (omega arith)
      (elem-slice offset len source p x (omega arith) (omega arith) e)

-- A file that is no longer than the source, and has each of its bytes, is the source.
pub same_bytes :
    (file source : Bytes)
    → length file ≤ length source
    → ((p x : ℕ) → get_elem? source p ≡ some x → get_elem? file p ≡ some x)
    → file ≡ source
same_bytes [] [] h k = refl
same_bytes [] (y ∷ source) h k = cc (k 0 y refl)
same_bytes (x ∷ file) [] h k = absurd (omega arith)
same_bytes (x ∷ file) (y ∷ source) h k =
    let head : x ≡ y = cc (k 0 y refl) in
    rw head (ap (◌∷◌ y) (same_bytes file source (omega arith) (λ p z e. k (suc p) z e)))
