-- ===== src/Console/Columns.antt =====
-- src/main.rs, the table of `format_clients`: the widths of its lines.
use dotdns.Prelude.{ℕ, zero, suc, ◌+◌, ◌-◌, ◌≤◌, ◌≡◌, refl, [], ◌∷◌, ◌++◌, length, replicate, arith}
use dotdns.Console.{client_row}
use dotdns.Text.{Text, codes, left_aligned, right_aligned, join}

length-replicate : (n c : ℕ) → length (replicate n c) ≡ n
length-replicate zero c = refl
length-replicate (suc n) c = ground (arith, length-replicate n c)

length-append : (s t : Text) → length (s ++ t) ≡ length s + length t
length-append [] t = omega arith
length-append (c ∷ s) t = ground (arith, length-append s t)

left_aligned-length :
    (width : ℕ) (s : Text) → length s ≤ width → length (left_aligned width s) ≡ width
unfolding left_aligned
left_aligned-length width s fits = ground (
  arith,
  length-append s (replicate (width - length s) b' '),
  length-replicate (width - length s) b' ',
)

right_aligned-length :
    (width : ℕ) (s : Text) → length s ≤ width → length (right_aligned width s) ≡ width
unfolding right_aligned
right_aligned-length width s fits = ground (
  arith,
  length-append (replicate (width - length s) b' ') s,
  length-replicate (width - length s) b' ',
)

joined :
    (n : ℕ) (s : Text) (width : ℕ) (rest : Text)
    → length s ≡ width
    → length rest ≡ n
    → length (s ++ (b' ' ∷ rest)) ≡ width + 1 + n
joined n s width rest h k = ground (arith, length-append s (b' ' ∷ rest))

-- The rows of the table of clients are all 77 characters wide if each value fits its column.
pub client_row-length :
    (ip queries blocked hits misses active : Text)
    → length ip ≤ 20
    → length queries ≤ 12
    → length blocked ≤ 10
    → length hits ≤ 10
    → length misses ≤ 10
    → length active ≤ 10
    → length (client_row ip queries blocked hits misses active) ≡ 77
unfolding client_row join
client_row-length ip queries blocked hits misses active f1 f2 f3 f4 f5 f6 =
    joined 56 (left_aligned 20 ip) 20 _ (left_aligned-length 20 ip f1) (
      joined 43 (right_aligned 12 queries) 12 _ (right_aligned-length 12 queries f2) (
        joined 32 (right_aligned 10 blocked) 10 _ (right_aligned-length 10 blocked f3) (
          joined 21 (right_aligned 10 hits) 10 _ (right_aligned-length 10 hits f4) (
            joined 10 (right_aligned 10 misses) 10 _ (right_aligned-length 10 misses f5)
              (right_aligned-length 10 active f6)))))

-- Its header is not: two of its names are wider than their columns.
header-length :
    length (
      client_row
        (codes "ip")
        (codes "queries")
        (codes "blocked")
        (codes "cache_hits")
        (codes "cache_misses")
        (codes "active_conn"))
    ≡ 80
unfolding client_row join left_aligned right_aligned
header-length = refl
