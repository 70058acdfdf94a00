-- ===== src/Timestamp/Start/Agree.antt =====
-- The start positions against a description by neighbouring characters, and the two functions
-- against each other.
use eestv_lib.Common.{
  ℕ, zero, suc, ◌+◌, ◌-◌, ◌≤◌, ◌<◌, ◌≡◌, refl, ap, ◌∙◌, Bool, true, false, not, ◌&&◌, Option, none,
  some, List, [], ◌∷◌, ◌++◌, arith, ltb, leb, if◌then◌else◌, length, get_elem?, take, take_empty,
  take_all, append_assoc, append-nil,
}
use eestv_lib.Common.Int.{ℤ, pos, negsuc}
use eestv_lib.Common.Text.{Text}
use eestv_lib.Timestamp.Start.{
  is_whitespace, indices_loop, possible_parse_start_indices, int_max, all_parse_start_indices,
  nth_loop, nth_parse_start_index,
}

-- The positions, counted from `index`, of the characters that are no white space behind white space;
-- `white` says whether the character in front of the text is white space.
starts : Bool → ℕ → Text → List ℕ
starts white index [] = []
starts white index (c ∷ cs) =
    let rest = starts (is_whitespace c) (index + 1) cs in
    if white && not (is_whitespace c) then index ∷ rest else rest

take_next :
    {A : Type 0} (n m : ℕ) (x : A) (xs : List A)
    → n < m
    → take (m - n) (x ∷ xs) ≡ x ∷ take (m - (n + 1)) xs
take_next n m x xs h = ap (λ k. take k (x ∷ xs)) exact
  where
    exact : m - n ≡ suc (m - (n + 1))
    exact = omega arith

take_no_more : {A : Type 0} (n m : ℕ) (xs : List A) → n ≡ m → take (m - n) xs ≡ []
take_no_more n m xs h = ap (λ k. take k xs) exact
  where
    exact : m - n ≡ 0
    exact = omega arith

indices_loop-starts :
    (cs : Text) (index : ℕ) (white : Bool) (indices : List ℕ) (nr m : ℕ)
    → nr < m
    → indices_loop cs index white indices nr (pos m)
      ≡ indices ++ take (m - nr) (starts white index cs)
unfolding indices_loop starts
indices_loop-starts [] index white indices nr m h =
    ground (arith, take_empty {A = ℕ} (m - nr), append-nil indices)
indices_loop-starts (c ∷ cs) index white indices nr m h = ground (
  arith,
  take_next nr m index (starts (is_whitespace c) (index + 1) cs) h,
  take_no_more (nr + 1) m (starts (is_whitespace c) (index + 1) cs),
  append_assoc indices (index ∷ []) (take (m - (nr + 1)) (starts (is_whitespace c) (index + 1) cs)),
  indices_loop-starts cs (index + 1) true indices nr m h,
  indices_loop-starts cs (index + 1) white indices nr m h,
  indices_loop-starts cs (index + 1) false (indices ++ (index ∷ [])) (nr + 1) m,
)

-- A position, or -1 for none.
abbrev pub or_minus_one : Option ℕ → ℤ
or_minus_one none = negsuc 0
or_minus_one (some i) = pos i

nth_loop-starts :
    (cs : Text) (index : ℕ) (white : Bool) (found n : ℕ)
    → found < n
    → nth_loop cs index white found n
      ≡ or_minus_one (get_elem? (starts white index cs) (n - found - 1))
unfolding nth_loop starts
nth_loop-starts [] index white found n h = refl
nth_loop-starts (c ∷ cs) index white found n h = ground (
  arith,
  nth_loop-starts cs (index + 1) true found n h,
  nth_loop-starts cs (index + 1) white found n h,
  nth_loop-starts cs (index + 1) false (found + 1) n,
)

-- A list of at most `n` positions is not cut by a limit of `n`.
length-starts : (white : Bool) (index : ℕ) (cs : Text) → length (starts white index cs) ≤ length cs
unfolding starts
length-starts white index [] = omega arith
length-starts white index (c ∷ cs) = ground (arith, length-starts (is_whitespace c) (index + 1) cs)

all-starts :
    (to_parse : Text)
    → length to_parse < int_max
    → all_parse_start_indices to_parse ≡ 0 ∷ starts false 0 to_parse
unfolding all_parse_start_indices possible_parse_start_indices
all-starts to_parse h =
    indices_loop-starts to_parse 0 false (0 ∷ []) 1 int_max (omega arith)
    ∙ ap (λ r. 0 ∷ r)
        (take_all (int_max - 1) (starts false 0 to_parse)
          (omega (arith, length-starts false 0 to_parse)))

-- In a line of fewer than 2 ^ 31 - 1 characters, a limit of `m`, at least 1, gives the first `m` of all
-- start positions.
pub possible_parse_start_indices-take :
    (to_parse : Text) (m : ℕ)
    → length to_parse < int_max
    → 1 ≤ m
    → possible_parse_start_indices to_parse (pos m) ≡ take m (all_parse_start_indices to_parse)
unfolding possible_parse_start_indices
possible_parse_start_indices-take to_parse m h hm = rw (all-starts to_parse h) (cut m hm)
  where
    exact : (k : ℕ) → suc (suc k) - 1 ≡ suc k
    exact k = omega arith

    cut :
        (m : ℕ)
        → 1 ≤ m
        → (if leb m 1 then 0 ∷ [] else indices_loop to_parse 0 false (0 ∷ []) 1 (pos m))
          ≡ take m (0 ∷ starts false 0 to_parse)
    cut zero hm = absurd (omega arith)
    cut (suc zero) hm = refl
    cut (suc (suc k)) hm =
        ground (arith, indices_loop-starts to_parse 0 false (0 ∷ []) 1 (suc (suc k)), exact k)

-- In a line of fewer than 2 ^ 31 - 1 characters `nth_parse_start_index` at a natural number finds the
-- same positions, counted from 0, and -1 behind the last.
pub nth_parse_start_index-get_elem? :
    (to_parse : Text) (n : ℕ)
    → length to_parse < int_max
    → nth_parse_start_index to_parse (pos n)
      ≡ or_minus_one (get_elem? (all_parse_start_indices to_parse) n)
unfolding nth_parse_start_index
nth_parse_start_index-get_elem? to_parse zero h = rw (all-starts to_parse h)
nth_parse_start_index-get_elem? to_parse (suc n) h =
    rw (all-starts to_parse h) (ground (arith, nth_loop-starts to_parse 0 false 0 (suc n), exact))
  where
    position : ℕ → ℤ
    position j = or_minus_one (get_elem? (starts false 0 to_parse) j)

    exact : position (suc n - 0 - 1) ≡ position n
    exact = ap position (omega arith)

-- The independent description: position `i` starts a token if the character there is no white space
-- and the one in front of it is.
abbrev pub white_at : Text → ℕ → Bool
white_at to_parse i = elim (get_elem? to_parse i) [ none ↦ false | some c ↦ is_whitespace c ]

abbrev pub visible_at : Text → ℕ → Bool
visible_at to_parse i = elim (get_elem? to_parse i) [
  | none ↦ false
  | some c ↦ not (is_whitespace c)
]

abbrev pub starts_token : Text → ℕ → Bool
starts_token to_parse i = (ltb 0 i && white_at to_parse (i - 1)) && visible_at to_parse i

-- The numbers from `first` on, `count` of them, that pass a test.
abbrev pub passing : (ℕ → Bool) → ℕ → ℕ → List ℕ
passing p first zero = []
passing p first (suc count) =
    let rest = passing p (first + 1) count in if p first then first ∷ rest else rest

starts-passing :
    (t cs : Text) (i : ℕ) (white : Bool)
    → ((k : ℕ) → get_elem? t (i + k) ≡ get_elem? cs k)
    → white ≡ (ltb 0 i && white_at t (i - 1))
    → starts white i cs ≡ passing (starts_token t) i (length cs)
unfolding starts
starts-passing t [] i white same e = refl
starts-passing t (c ∷ cs) i white same e =
    ground (arith, here, e, starts-passing t cs (i + 1) (is_whitespace c) later carry)
  where
    here : get_elem? t i ≡ some c
    here = ap (get_elem? t) (omega arith) ∙ same 0

    later : (k : ℕ) → get_elem? t (i + 1 + k) ≡ get_elem? cs k
    later k = ap (get_elem? t) (omega arith) ∙ same (suc k)

    back : get_elem? t (i + 1 - 1) ≡ some c
    back = ap (get_elem? t) (omega arith) ∙ here

    carry : is_whitespace c ≡ (ltb 0 (i + 1) && white_at t (i + 1 - 1))
    carry = ground (arith, back)

-- The start positions of a line of fewer than 2 ^ 31 - 1 characters are 0 and, in order, every
-- position that starts a token.
pub all_parse_start_indices-tokens :
    (to_parse : Text)
    → length to_parse < int_max
    → all_parse_start_indices to_parse ≡ 0 ∷ passing (starts_token to_parse) 0 (length to_parse)
all_parse_start_indices-tokens to_parse h =
    all-starts to_parse h ∙ ap (λ r. 0 ∷ r) (starts-passing to_parse to_parse 0 false same refl)
  where
    same : (k : ℕ) → get_elem? to_parse (0 + k) ≡ get_elem? to_parse k
    same k = ap (get_elem? to_parse) (omega arith)
