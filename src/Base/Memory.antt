-- ===== src/Base/Memory.antt =====
-- Blocks of `unsigned int`, and what realloc, calloc and memset do to them. A block is the list of
-- its entries; the null pointer is the empty block, whose every access is a fault.
use Prim.Native.Nat.{ℕ, zero, suc, ◌+◌, ◌-◌, ◌*◌, ◌%◌, ◌^◌, ◌≤◌, ◌<◌}
use mathlib.Core.Path.{◌≡◌, refl, sym, ap, ◌∙◌}
use mathlib.Core.List.{List, [], ◌∷◌, ◌++◌}
use native.Mathlib.Omega.{arith}
use distributed_process.Base.Tests.{leb, if◌then◌else◌}
use distributed_process.Base.Lists.{
  length, take, drop, tabulate, get_or, length-append, length-take, length-drop, length-tabulate,
  get_or-append_left, get_or-append_right, get_or-tabulate,
}

-- `realloc` to `n` entries: the old ones stay, the rest is memory that no one has written.
unfoldable pub realloc : (ℕ → ℕ) → List ℕ → ℕ → List ℕ
realloc junk xs n =
    if leb n (length xs) then take n xs else xs ++ tabulate junk (length xs) (n - length xs)

-- The `n` bytes of lowest address of an entry set to 0; the low byte comes first.
abbrev pub clear_low : ℕ → ℕ → ℕ
clear_low n x = if leb 4 n then 0 else x - x % 2 ^ (8 * n)

unfoldable pub clear_bytes : ℕ → List ℕ → List ℕ
clear_bytes n [] = []
clear_bytes n (x ∷ xs) = clear_low n x ∷ clear_bytes (n - 4) xs

-- `memset(&xs[i], 0, n)`, where `n` counts bytes.
unfoldable pub memset : ℕ → ℕ → List ℕ → List ℕ
unfolding clear_bytes
memset i n xs = take i xs ++ clear_bytes n (drop i xs)

length-clear_bytes : (n : ℕ) (xs : List ℕ) → length (clear_bytes n xs) ≡ length xs
unfolding clear_bytes
length-clear_bytes n [] = refl
length-clear_bytes n (x ∷ xs) = ap suc (length-clear_bytes (n - 4) xs)

pub length-realloc : (junk : ℕ → ℕ) (xs : List ℕ) (n : ℕ) → length (realloc junk xs n) ≡ n
unfolding realloc
length-realloc junk xs n = ground (
  arith,
  length-take n xs,
  length-append xs (tabulate junk (length xs) (n - length xs)),
  length-tabulate junk (length xs) (n - length xs),
)

pub length-memset : (i n : ℕ) (xs : List ℕ) → i ≤ length xs → length (memset i n xs) ≡ length xs
unfolding memset
length-memset i n xs h = omega (
  arith,
  length-append (take i xs) (clear_bytes n (drop i xs)),
  length-take i xs h,
  length-clear_bytes n (drop i xs),
  length-drop i xs,
)

get_or-clear_bytes :
    (n : ℕ) (xs : List ℕ) (k : ℕ)
    → k < length xs
    → get_or (clear_bytes n xs) k 0 ≡ clear_low (n - 4 * k) (get_or xs k 0)
unfolding clear_bytes
get_or-clear_bytes n [] k h = absurd (omega arith)
get_or-clear_bytes n (x ∷ xs) zero h = ap (λ m. clear_low m x) (omega arith)
get_or-clear_bytes n (x ∷ xs) (suc k) h =
    get_or-clear_bytes (n - 4) xs k (omega arith)
    ∙ ap (λ m. clear_low m (get_or xs k 0)) (omega arith)

get_or-drop : (i : ℕ) (xs : List ℕ) (k : ℕ) → get_or (drop i xs) k 0 ≡ get_or xs (i + k) 0
get_or-drop zero xs k = ap (λ m. get_or xs m 0) (omega arith)
get_or-drop (suc i) [] k = refl
get_or-drop (suc i) (x ∷ xs) k =
    let e : suc (i + k) ≡ suc i + k = omega arith in
    get_or-drop i xs k ∙ ap (λ m. get_or (x ∷ xs) m 0) e

get_or-take : (i : ℕ) (xs : List ℕ) (k : ℕ) → k < i → get_or (take i xs) k 0 ≡ get_or xs k 0
get_or-take zero xs k h = absurd (omega arith)
get_or-take (suc i) [] k h = refl
get_or-take (suc i) (x ∷ xs) zero h = refl
get_or-take (suc i) (x ∷ xs) (suc k) h = get_or-take i xs k (omega arith)

-- Before `xs[i]` nothing changes.
pub get_or-memset_before :
    (i n : ℕ) (xs : List ℕ) (k : ℕ)
    → k < i
    → i ≤ length xs
    → get_or (memset i n xs) k 0 ≡ get_or xs k 0
unfolding memset
get_or-memset_before i n xs k h b =
    get_or-append_left (take i xs) (clear_bytes n (drop i xs)) k 0
      (omega (arith, length-take i xs b))
    ∙ get_or-take i xs k h

-- From `xs[i]` on the first `n` bytes are cleared.
pub get_or-memset_from :
    (i n : ℕ) (xs : List ℕ) (k : ℕ)
    → i + k < length xs
    → get_or (memset i n xs) (i + k) 0 ≡ clear_low (n - 4 * k) (get_or xs (i + k) 0)
unfolding memset
get_or-memset_from i n xs k b =
    let l : length (take i xs) ≡ i = length-take i xs (omega arith) in
    ap (λ m. get_or (take i xs ++ clear_bytes n (drop i xs)) (m + k) 0) (sym l)
    ∙ get_or-append_right (take i xs) (clear_bytes n (drop i xs)) k 0
    ∙ get_or-clear_bytes n (drop i xs) k (omega (arith, length-drop i xs))
    ∙ ap (clear_low (n - 4 * k)) (get_or-drop i xs k)

pub get_or-realloc_before :
    (junk : ℕ → ℕ) (xs : List ℕ) (n k : ℕ)
    → k < length xs
    → length xs < n
    → get_or (realloc junk xs n) k 0 ≡ get_or xs k 0
unfolding realloc
get_or-realloc_before junk xs n k h b =
    ground (arith, get_or-append_left xs (tabulate junk (length xs) (n - length xs)) k 0)

pub get_or-realloc_from :
    (junk : ℕ → ℕ) (xs : List ℕ) (n k : ℕ)
    → length xs + k < n
    → get_or (realloc junk xs n) (length xs + k) 0 ≡ junk (length xs + k)
unfolding realloc
get_or-realloc_from junk xs n k b = ground (
  arith,
  get_or-append_right xs (tabulate junk (length xs) (n - length xs)) k 0,
  get_or-tabulate junk (length xs) (n - length xs) k 0,
)
