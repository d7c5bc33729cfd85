-- ===== src/ListHead/Size.antt =====
-- `list_head_size` of include/kernel/list_head.h.
use hos.Base.{
  ℕ, zero, suc, ◌+◌, ◌^◌, ◌<◌, ◌≡◌, refl, ap, ◌∙◌, u32, true, false, ◌==◌, List, [], ◌∷◌, length,
  is_in, arith, some,
}
use hos.ListHead.{Links, list_head_empty, size_loop, list_head_size}
use hos.ListHead.Chain.{Chain, Ring}

size_loop-length :
    (fuel size a head : ℕ) (xs : List ℕ) (s : Links)
    → Chain s a xs head
    → is_in head xs ≡ false
    → length xs < fuel
    → size + length xs < 2 ^ 32
    → size_loop fuel size (s.next a) head s ≡ some (size + length xs)
unfolding size_loop
size_loop-length zero size a head xs s chain out enough bound = absurd (omega arith)
size_loop-length (suc fuel) size a head [] s (n, p) out enough bound =
    let on : (s.next a == head) ≡ true = ground (arith, n) in
    let same : size ≡ size + 0 = omega arith in rw on (ap some same)
size_loop-length (suc fuel) size a head (x ∷ xs) s ((n, p), rest) out enough bound =
    let off : (s.next a == head) ≡ false = ground (arith, n, out) in
    let next : u32 (size + 1) ≡ size + 1 = omega arith in
    let same : size + 1 + length xs ≡ size + suc (length xs) = omega arith in
    rw off (
      rw next (
        rw n (
          size_loop-length fuel (size + 1) x head xs s rest (ground (arith, out)) (omega arith)
            (omega arith)
          ∙ ap some same)))

-- With fuel for all entries, of which there are fewer than 2^32, `list_head_size` ends with their number.
pub list_head_size-length :
    (fuel head : ℕ) (xs : List ℕ) (s : Links)
    → Ring s head xs
    → length xs < fuel
    → length xs < 2 ^ 32
    → list_head_size fuel head s ≡ some (length xs)
unfolding list_head_size list_head_empty
list_head_size-length fuel head [] s ((n, p), d) enough bound =
    let on : (s.next head == head) ≡ true = ground (arith, n) in rw on refl
list_head_size-length fuel head (x ∷ xs) s (chain, d) enough bound =
    let off : (s.next head == head) ≡ false = ground (arith, chain.0.0, d.0) in
    rw off (
      size_loop-length fuel 0 head head (x ∷ xs) s chain d.0 enough (omega arith)
      ∙ ap some (omega arith))
