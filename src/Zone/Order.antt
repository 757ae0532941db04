-- ===== src/Zone/Order.antt =====
-- The order in which Go walks the map of Cloudflare's hostnames, which the language leaves open.
use mathlib.Core.Quot
use mathlib.Core.Quot.{Quot}
use mathlib.Core.List.{Permᴰ}
use cf_edge_operator.Prelude.{
  ℕ, ◌≡◌, refl, ap, ◌∙◌, String, Bool, true, List, [], ◌∷◌, arith, length,
}
use cf_edge_operator.Zone.Listing.{Hostnames}
use cf_edge_operator.Zone.Drift.{take_census, start_census, is_known}
use cf_edge_operator.Zone.Counts.{count_if, count_of, managed_with, take_census_lem}

-- The hostnames of a map, whatever the order of the walk.
abbrev pub Unordered : Type 0 → Type 0
Unordered A = Quot (Permᴰ {A = A})

abbrev pub entries : {A : Type 0} → List A → Unordered A
entries = Quot.mk

count_if-Perm :
    {A : Type 0} (p : A → Bool) (xs ys : List A) → Permᴰ xs ys → count_if p xs ≡ count_if p ys
count_if-Perm p _ _ Permᴰ.nil = refl
count_if-Perm p _ _ (Permᴰ.cons {a} {b} {l₁} {l₂} same rest) =
    let tail = count_if-Perm p l₁ l₂ rest in rw same (omega (arith, tail))
count_if-Perm p _ _ (Permᴰ.swap {a} {b} {a'} {b'} {l} first second) =
    rw (first, second) (omega arith)
count_if-Perm p _ _ (Permᴰ.trans {l₁} {l₂} {l₃} one two) =
    count_if-Perm p l₁ l₂ one ∙ count_if-Perm p l₂ l₃ two

-- How many entries of the map pass the test.
how_many : {A : Type 0} → (A → Bool) → Unordered A → ℕ
how_many p = Quot.lift (hlevel) (count_if p) (count_if-Perm p)

same_count :
    {A : Type 0} (p : A → Bool) (xs ys : List A)
    → entries xs ≡ entries ys
    → count_if p xs ≡ count_if p ys
unfolding how_many
same_count p xs ys e = ap (how_many p) e

length-count_if : {A : Type 0} (xs : List A) → length xs ≡ count_if (λ x. true) xs
length-count_if [] = refl
length-count_if (x ∷ xs) = omega (arith, length-count_if xs)

-- The second pass of a drift cycle does not depend on the order in which Go walks the map of
-- Cloudflare's hostnames: for two lists that are the same map but for the order, the counts of
-- managed hostnames, of orphans and of each of Cloudflare's statuses are the same.
pub take_census-order :
    (known : List (String × Bool)) (hs hs' : Hostnames) (status : String)
    → entries hs ≡ entries hs'
    → let c = take_census known hs start_census in
      let c' = take_census known hs' start_census in
      (c.managed ≡ c'.managed)
      × (c.orphans ≡ c'.orphans)
      × (count_of status c.status_counts ≡ count_of status c'.status_counts)
take_census-order known hs hs' status same = omega (
  arith,
  take_census_lem status known hs,
  take_census_lem status known hs',
  same_count (managed_with known status) hs hs' same,
  same_count (λ (h, _). is_known h known) hs hs' same,
  same_count (λ _. true) hs hs' same,
  length-count_if hs,
  length-count_if hs',
)
