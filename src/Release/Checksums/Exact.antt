-- ===== src/Release/Checksums/Exact.antt =====
-- A SHA256SUMS that `verify_checksums` accepts names the archives and nothing else.
use pg_mcp.Prelude.{
  ℕ, ◌+◌, ◌≤◌, ◌==◌, String, Bool, true, false, not, ap, inl, inr, Bool-cases, ◌&&◌, List, [], ◌∷◌,
  length, any, All, sum_by, sum_by-zero, str_eq, eq_iff, if◌then◌else◌, ok, ◌≡◌, ◌∙◌, sym, refl,
  arith,
}
use pg_mcp.Release.Text.{lines}
use pg_mcp.Release.Notes.{archive_names}
use pg_mcp.Release.Checksums.{checksum_names, occurrences, verify_checksums}

once : String → String → ℕ
once x n = if str_eq n x then 1 else 0

-- Counting the pairs of equal texts in two lists by either list.
sum-once : (n : String) (xs : List String) → sum_by (λ x. once x n) xs ≡ occurrences n xs
unfolding once
sum-once n [] = refl
sum-once n (x ∷ xs) = ground (arith, eq_iff n x, eq_iff x n, sum-once n xs)

sum_by-plus :
    (f g : String → ℕ) (xs : List String) → sum_by (λ x. f x + g x) xs ≡ sum_by f xs + sum_by g xs
sum_by-plus f g [] = refl
sum_by-plus f g (x ∷ xs) = omega (arith, sum_by-plus f g xs)

occurrences-cons :
    (n : String) (names xs : List String)
    → sum_by (λ x. occurrences x (n ∷ names)) xs
      ≡ sum_by (λ x. once x n) xs + sum_by (λ x. occurrences x names) xs
unfolding once
occurrences-cons n names [] = refl
occurrences-cons n names (x ∷ xs) = ground (arith, occurrences-cons n names xs)

double_count :
    (names xs : List String)
    → sum_by (λ x. occurrences x names) xs ≡ sum_by (λ n. occurrences n xs) names
double_count [] xs = sum_by-zero xs
double_count (n ∷ names) xs =
    omega (arith, occurrences-cons n names xs, sum-once n xs, double_count names xs)

-- A list of numbers that are at most 1 and add up to its length.
each_is_one :
    (f : String → ℕ)
    → ((n : String) → f n ≤ 1)
    → (names : List String)
    → (sum_by f names ≤ length names) × (sum_by f names ≡ length names → All (λ n. f n ≡ 1) names)
each_is_one f small [] = (omega arith, λ _. _)
each_is_one f small (n ∷ names) = (
  omega (arith, small n, (each_is_one f small names).0),
  λ e. (
    omega (arith, e, small n, (each_is_one f small names).0),
    (each_is_one f small names).1 (omega (arith, e, small n, (each_is_one f small names).0)),
  ),
)

sum_ones : (f : String → ℕ) (xs : List String) → All (λ x. f x ≡ 1) xs → sum_by f xs ≡ length xs
sum_ones f [] _ = refl
sum_ones f (x ∷ xs) (e, es) = omega (arith, e, sum_ones f xs es)

none_other :
    (names xs : List String)
    → any (λ x. not (occurrences x names == 1)) xs ≡ false
    → All (λ x. occurrences x names ≡ 1) xs
none_other names [] h = _
none_other names (x ∷ xs) h = (ground (arith, h), none_other names xs (ground (arith, h)))

-- Where no name is expected twice, each name of an accepted file and each expected one stands
-- exactly once among the other.
accepted_exact :
    (text : String) (expected names : List String)
    → ((n : String) → occurrences n expected ≤ 1)
    → checksum_names (lines text) ≡ ok names
    → verify_checksums text expected ≡ ok tt
    → All (λ x. occurrences x names ≡ 1) expected × All (λ n. occurrences n expected ≡ 1) names
unfolding verify_checksums
accepted_exact text expected names distinct read accepted =
    let each = none_other names expected (ground (arith, read, accepted)) in
    (
      each,
      (each_is_one (λ n. occurrences n expected) distinct names).1 (
          sym (double_count names expected)
          ∙ (sum_ones (λ x. occurrences x names) expected each ∙ ground (arith, read, accepted))),
    )

no_repeats : List String → Bool
no_repeats [] = true
no_repeats (x ∷ xs) = occurrences x xs == 0 && no_repeats xs

at_most_once : (xs : List String) (n : String) → no_repeats xs ≡ true → occurrences n xs ≤ 1
unfolding no_repeats
at_most_once [] n h = omega arith
at_most_once (x ∷ xs) n h =
    let later = at_most_once xs n (ground (arith, h)) in
    elim (Bool-cases (str_eq x n)) [
      | inl e ↦
          let same = ap (λ k. occurrences k xs) ((eq_iff x n).0 e) in ground (arith, h, e, same)
      | inr e ↦ ground (arith, e, later)
    ]

archives_differ : no_repeats archive_names ≡ true
unfolding no_repeats archive_names
archives_differ = refl

archive_once : (n : String) → occurrences n archive_names ≤ 1
archive_once n = at_most_once archive_names n archives_differ

-- The names in a SHA256SUMS that is accepted for the archives are the archives: each archive
-- stands exactly once among them, and each of them exactly once among the archives.
pub verify_checksums_exact :
    (text : String) (names : List String)
    → checksum_names (lines text) ≡ ok names
    → verify_checksums text archive_names ≡ ok tt
    → All (λ x. occurrences x names ≡ 1) archive_names
      × All (λ n. occurrences n archive_names ≡ 1) names
verify_checksums_exact text names read accepted =
    accepted_exact text archive_names names archive_once read accepted
