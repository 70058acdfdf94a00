-- ===== src/LinearBuffer/Contents.antt =====
-- The bytes that a `LinearBuffer` holds, and what each operation does to them.
use eestv_lib.Common.{
  ℕ, zero, suc, ◌+◌, ◌-◌, ◌≤◌, ◌<◌, ◌≡◌, refl, sym, ap, ◌∙◌, true, false, List, [], ◌∷◌, ◌++◌,
  arith, length, take, drop, store, length-store, if◌then◌else◌, leb, ◌==◌, Bool-cases, inl, inr,
  drop-drop, drop-take, length-take, length-drop,
}
use eestv_lib.LinearBuffer.{LinearBuffer, consume, get_write_head, commit, write_at}
use eestv_lib.LinearBuffer.Invariant.{IsValid, get_write_head_size}

-- The unread bytes, oldest first: `_size` bytes from the tail on.
abbrev pub contents : LinearBuffer → List ℕ
contents b = take b.size (drop b.tail b.buffer)

pub length-contents : {b : LinearBuffer} → IsValid b → length (contents b) ≡ b.size
length-contents {b} v =
    omega (arith, length-take b.size (drop b.tail b.buffer), length-drop b.tail b.buffer)

take-drop-take :
    {A : Type 0} (n s t : ℕ) (xs : List A)
    → n ≤ s
    → drop n (take s (drop t xs)) ≡ take (s - n) (drop (t + n) xs)
take-drop-take n s t xs h =
    ap (λ k. drop n (take k (drop t xs))) (omega arith)
    ∙ drop-take n (s - n) (drop t xs)
    ∙ ap (take (s - n)) (drop-drop t n xs)

-- What `consume` does to the fields of a valid buffer.
consume_fields :
    (n : ℕ) (b : LinearBuffer)
    → IsValid b
    → n ≤ b.size
    → (consume n b).0 ≡ (
        if b.size - n == 0
        then record b { head = 0; tail = 0; size = 0 }
        else record b { tail = b.tail + n; size = b.size - n })
unfolding consume
consume_fields n b v h = ground arith

take_none : {A : Type 0} (k : ℕ) (xs : List A) → k ≡ 0 → take k xs ≡ []
take_none zero xs h = refl
take_none (suc k) xs h = absurd (omega arith)

take_fully_dropped : (n : ℕ) (b : LinearBuffer) → b.size ≡ n → IsValid b → drop n (contents b) ≡ []
take_fully_dropped n b e v =
    take-drop-take n b.size b.tail b.buffer (omega arith)
    ∙ take_none (b.size - n) (drop (b.tail + n) b.buffer) (omega arith)

-- In a valid buffer, `consume` of at most the readable size succeeds and drops that many bytes from the front; a larger
-- one fails and changes nothing.
pub contents-consume :
    (n : ℕ) (b : LinearBuffer)
    → IsValid b
    → ((n ≤ b.size) → (contents (consume n b).0 ≡ drop n (contents b)) × ((consume n b).1 ≡ true))
      × ((b.size < n) → consume n b ≡ (b, false))
contents-consume n b v = (λ h. (shorter h, done h), refused)
  where
    shorter : n ≤ b.size → contents (consume n b).0 ≡ drop n (contents b)
    shorter h = rw (consume_fields n b v h) (elim (Bool-cases (b.size - n == 0)) [
      | inl e ↦ rw e (sym (take_fully_dropped n b (ground arith) v))
      | inr e ↦ rw e (sym (take-drop-take n b.size b.tail b.buffer h))
    ])

    done : n ≤ b.size → (consume n b).1 ≡ true
    done h = unfold consume in ground arith

    refused : b.size < n → consume n b ≡ (b, false)
    refused h = unfold consume in ground arith

-- In a valid buffer `consume` succeeds exactly if no more than the readable size is asked for; it then
-- drops that many bytes from the front of the contents, and else leaves them.
pub consume-contents :
    (n : ℕ) (b : LinearBuffer)
    → IsValid b
    → (contents (consume n b).0 ≡ (if leb n b.size then drop n (contents b) else contents b))
      × ((consume n b).1 ≡ leb n b.size)
consume-contents n b v = ground (arith, contents-consume n b v)

take-store_front :
    {A : Type 0} (n : ℕ) (xs ys : List A)
    → length ys ≡ n
    → n ≤ length xs
    → take n (store xs 0 ys) ≡ ys
take-store_front zero xs [] e h = refl
take-store_front zero xs (y ∷ ys) e h = absurd (omega arith)
take-store_front (suc n) xs [] e h = absurd (omega arith)
take-store_front (suc n) [] (y ∷ ys) e h = absurd (omega arith)
take-store_front (suc n) (x ∷ xs) (y ∷ ys) e h =
    ap (λ t. y ∷ t) (take-store_front n xs ys (omega arith) (omega arith))

-- Bytes stored right behind a region extend that region.
take-store :
    {A : Type 0} (t s i n : ℕ) (xs ys : List A)
    → i ≡ t + s
    → n ≡ s + length ys
    → i + length ys ≤ length xs
    → take n (drop t (store xs i ys)) ≡ take s (drop t xs) ++ ys
take-store zero zero zero n xs ys e l h = take-store_front n xs ys (omega arith) (omega arith)
take-store zero zero (suc i) n xs ys e l h = absurd (omega arith)
take-store zero (suc s) zero n xs ys e l h = absurd (omega arith)
take-store zero (suc s) (suc i) zero xs ys e l h = absurd (omega arith)
take-store zero (suc s) (suc i) (suc n) [] ys e l h = absurd (omega arith)
take-store zero (suc s) (suc i) (suc n) (x ∷ xs) ys e l h =
    ap (λ r. x ∷ r) (take-store zero s i n xs ys (omega arith) (omega arith) (omega arith))
take-store (suc t) s zero n xs ys e l h = absurd (omega arith)
take-store (suc t) s (suc i) n [] ys e l h = absurd (omega arith)
take-store (suc t) s (suc i) n (x ∷ xs) ys e l h =
    take-store t s i n xs ys (omega arith) l (omega arith)

-- The fields after bytes that fit are written at the write head and committed.
commit_fields :
    (bytes : List ℕ) (b : LinearBuffer)
    → IsValid b
    → length bytes ≤ (get_write_head b).0
    → commit (length bytes) (write_at b.head bytes b) ≡ (
      record b {
        buffer = store b.buffer b.head bytes;
        head = b.head + length bytes;
        size = b.size + length bytes;
      },
      true,
    )
unfolding commit write_at get_write_head
commit_fields bytes b v h = ground (arith, length-store b.buffer b.head bytes)

-- In a valid buffer, bytes that fit into the writable region, written at the write head and committed,
-- are appended to the contents, and the commit succeeds.
pub contents-commit :
    (bytes : List ℕ) (b : LinearBuffer)
    → IsValid b
    → length bytes ≤ (get_write_head b).0
    → (contents (commit (length bytes) (write_at b.head bytes b)).0 ≡ contents b ++ bytes)
      × ((commit (length bytes) (write_at b.head bytes b)).1 ≡ true)
contents-commit bytes b v h = rw (commit_fields bytes b v h) (
  take-store b.tail b.size b.head (b.size + length bytes) b.buffer bytes (sym v.filled) refl
      (omega (arith, get_write_head_size v)),
  refl,
)

-- A commit of more than the writable size is refused and changes nothing.
pub commit_refused : (n : ℕ) (b : LinearBuffer) → (get_write_head b).0 < n → commit n b ≡ (b, false)
unfolding commit
commit_refused n b h = ground arith

-- Such a commit leaves the tail and adds to the size.
pub commit_grows :
    (bytes : List ℕ) (b : LinearBuffer)
    → IsValid b
    → length bytes ≤ (get_write_head b).0
    → let b' = (commit (length bytes) (write_at b.head bytes b)).0 in
      (b'.tail ≡ b.tail) × (b'.size ≡ b.size + length bytes)
commit_grows bytes b v h = rw (commit_fields bytes b v h) (refl, refl)
