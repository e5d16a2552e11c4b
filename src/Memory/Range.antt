-- ===== src/Memory/Range.antt =====
-- Reads and writes of a range of bytes in a block; out of bounds there is no result.
use mars_wrapper.Prelude.{
  ℕ, ◌+◌, ◌≤◌, ◌<◌, ◌≡◌, refl, ap, sym, ◌∙◌, append-nil, List, [], ◌++◌, Option, none, some,
  append_assoc, arith, leb, if◌then◌else◌, le→leb, lt→leb-false, length, take, drop, length-append,
  take-append, drop-append, length-take, length-drop, take_all,
}

unfoldable pub load_at : ℕ → ℕ → List ℕ → Option (List ℕ)
load_at off n b = if leb (off + n) (length b) then some (take n (drop off b)) else none

unfoldable pub store_at : ℕ → List ℕ → List ℕ → Option (List ℕ)
store_at off bs b =
    if leb (off + length bs) (length b)
    then some (take off b ++ (bs ++ drop (off + length bs) b))
    else none

-- The middle of three parts, found by the lengths of the first two.
pub load_at-append :
    {off n : ℕ} (xs ys zs : List ℕ)
    → length xs ≡ off
    → length ys ≡ n
    → load_at off n (xs ++ (ys ++ zs)) ≡ some ys
unfolding load_at
load_at-append {off} {n} xs ys zs e f =
    rw (le→leb (off + n) (length (xs ++ (ys ++ zs))) inside, drop-append xs (ys ++ zs) e)
      (ap some (take-append ys zs f))
  where
    inside : off + n ≤ length (xs ++ (ys ++ zs))
    inside = omega (arith, length-append xs (ys ++ zs), length-append ys zs)

-- The last of two parts.
pub load_at-append_end :
    {off n : ℕ} (xs ys : List ℕ)
    → length xs ≡ off
    → length ys ≡ n
    → load_at off n (xs ++ ys) ≡ some ys
unfolding load_at
load_at-append_end {off} {n} xs ys e f =
    rw (le→leb (off + n) (length (xs ++ ys)) inside, drop-append xs ys e) (ap some (take_all ys f))
  where
    inside : off + n ≤ length (xs ++ ys)
    inside = omega (arith, length-append xs ys)

pub load_at_start : {n : ℕ} (ys zs : List ℕ) → length ys ≡ n → load_at 0 n (ys ++ zs) ≡ some ys
load_at_start ys zs f = load_at-append [] ys zs refl f

pub load_at_all : {n : ℕ} (ys : List ℕ) → length ys ≡ n → load_at 0 n ys ≡ some ys
load_at_all ys f = load_at-append_end [] ys refl f

-- A write replaces the part that it covers.
pub store_at-append :
    {off : ℕ} (xs ys zs bs : List ℕ)
    → length xs ≡ off
    → length ys ≡ length bs
    → store_at off bs (xs ++ (ys ++ zs)) ≡ some (xs ++ (bs ++ zs))
unfolding store_at
store_at-append {off} xs ys zs bs e f = rw (
  le→leb (off + length bs) (length (xs ++ (ys ++ zs))) inside,
  take-append xs (ys ++ zs) e,
  ← append_assoc xs ys zs,
  drop-append (xs ++ ys) zs whole,
)
  where
    inside : off + length bs ≤ length (xs ++ (ys ++ zs))
    inside = omega (arith, length-append xs (ys ++ zs), length-append ys zs)

    whole : length (xs ++ ys) ≡ off + length bs
    whole = omega (arith, length-append xs ys)

-- Out of bounds.
pub load_at_short : (off n : ℕ) (b : List ℕ) → length b < off + n → load_at off n b ≡ none
unfolding load_at
load_at_short off n b h = rw (lt→leb-false (off + n) (length b) h)

pub store_at_short :
    (off : ℕ) (bs b : List ℕ) → length b < off + length bs → store_at off bs b ≡ none
unfolding store_at
store_at_short off bs b h = rw (lt→leb-false (off + length bs) (length b) h)

-- A read in bounds gives the range asked for.
pub load_at_inside :
    (off n : ℕ) (b : List ℕ) → off + n ≤ length b → load_at off n b ≡ some (take n (drop off b))
unfolding load_at
load_at_inside off n b h = rw (le→leb (off + n) (length b) h)

pub length-load_at : (off n : ℕ) (b : List ℕ) {c : List ℕ} → load_at off n b ≡ some c → length c ≡ n
unfolding load_at
length-load_at off n b e = ground (arith, length-take n (drop off b), length-drop off b)

pub store_at_all : (bs b : List ℕ) → length b ≡ length bs → store_at 0 bs b ≡ some bs
store_at_all bs b e =
    ap (store_at 0 bs) (sym (append-nil b))
    ∙ store_at-append [] b [] bs refl e
    ∙ ap some (append-nil bs)
