-- ===== src/Strings/Terminated.antt =====
-- The functions on terminated strings of src/kernel/misc/string.c: they end, and what they leave.
use hos.Base.{
  ℕ, zero, suc, ◌+◌, ◌-◌, ◌<◌, ◌≤◌, ◌≡◌, ◌≢◌, refl, sym, ap, ◌∙◌, store, true, false, ◌⊎◌, ltb,
  ◌==◌, arith, Bool-cases, inl, inr, some,
}
use hos.Strings.{Bytes, copy_up, find_end, strlen, copy_string, strcat}
use hos.Strings.Bytes.{is_within, moved, copy_up-moved}

-- A string of `k` bytes and its terminator.
abbrev pub IsString : Bytes → ℕ → ℕ → Type 0
IsString m s k = ((i : ℕ) → i < k → m (s + i) ≢ 0) × (m (s + k) ≡ 0)

pub IsString-head : (m : Bytes) (s k : ℕ) → IsString m s (suc k) → m s ≢ 0
IsString-head m s k str e = let at : s + 0 ≡ s = omega arith in str.0 0 (omega arith) (ap m at ∙ e)

pub IsString-end : (m : Bytes) (s : ℕ) → IsString m s 0 → m s ≡ 0
IsString-end m s str = let at : s + 0 ≡ s = omega arith in sym (ap m at) ∙ str.1

pub IsString-tail : (m : Bytes) (s k : ℕ) → IsString m s (suc k) → IsString m (s + 1) k
IsString-tail m s k str = (
  λ i lt e.
      let at : s + (i + 1) ≡ s + 1 + i = omega arith in str.0 (i + 1) (omega arith) (ap m at ∙ e),
  let at : s + 1 + k ≡ s + suc k = omega arith in ap m at ∙ str.1,
)

-- A string in memory of which only other bytes have changed.
IsString-same :
    (m m' : Bytes) (s k : ℕ)
    → ((i : ℕ) → i ≤ k → m' (s + i) ≡ m (s + i))
    → IsString m s k
    → IsString m' s k
IsString-same m m' s k same str =
    (λ i lt e. str.0 i lt (sym (same i (omega arith)) ∙ e), same k (omega arith) ∙ str.1)

find_end-IsString :
    (k fuel s : ℕ) (m : Bytes) → k < fuel → IsString m s k → find_end fuel s m ≡ some (s + k)
unfolding find_end
find_end-IsString k zero s m enough str = absurd (omega arith)
find_end-IsString zero (suc fuel) s m enough str =
    let stop : (m s == 0) ≡ true = ground (arith, IsString-end m s str) in
    rw stop (ap some (omega arith))
find_end-IsString (suc k) (suc fuel) s m enough str =
    let go_on : (m s == 0) ≡ false = ground (arith, IsString-head m s k str) in
    let at : s + 1 + k ≡ s + suc k = omega arith in
    rw go_on
      (find_end-IsString k fuel (s + 1) m (omega arith) (IsString-tail m s k str) ∙ ap some at)

-- With fuel for a string of `k` bytes `strlen` ends, and gives `k`.
pub strlen-IsString :
    (fuel s k : ℕ) (m : Bytes) → k < fuel → IsString m s k → strlen fuel s m ≡ some k
unfolding strlen
strlen-IsString fuel s k m enough str =
    let length : s + k - s ≡ k = omega arith in
    rw (find_end-IsString k fuel s m enough str) (ap some length)

-- The string behind a byte that has been copied to a place before or behind it.
pub IsString-store :
    (m : Bytes) (dst src k v : ℕ)
    → (dst < src) ⊎ (src + suc k < dst)
    → IsString m src (suc k)
    → IsString (store m dst v) (src + 1) k
IsString-store m dst src k v apart str =
    IsString-same m (store m dst v) (src + 1) k
      (λ i le.
        let other : (dst == src + 1 + i) ≡ false = ground (arith, apart, le) in rw other refl)
      (IsString-tail m src k str)

copy_string-copy_up :
    (k fuel dst src : ℕ) (m : Bytes)
    → k < fuel
    → (dst + k < src) ⊎ (src + k < dst)
    → IsString m src k
    → copy_string fuel dst src m ≡ some (copy_up (suc k) dst src m)
unfolding copy_string copy_up
copy_string-copy_up k zero dst src m enough apart str = absurd (omega arith)
copy_string-copy_up zero (suc fuel) dst src m enough apart str =
    let stop : (m src == 0) ≡ true = ground (arith, IsString-end m src str) in rw stop refl
copy_string-copy_up (suc k) (suc fuel) dst src m enough apart str =
    let go_on : (m src == 0) ≡ false = ground (arith, IsString-head m src k str) in
    rw go_on (
      copy_string-copy_up k fuel (dst + 1) (src + 1) (store m dst (m src)) (omega arith)
        (elim apart [ inl e ↦ inl (omega arith) | inr e ↦ inr (omega arith) ])
        (IsString-store m dst src k (m src)
          (elim apart [ inl e ↦ inl (omega arith) | inr e ↦ inr e ]) str))

-- The bytes of a string and its terminator, copied to the end of another.
joined-IsString :
    (m m' : Bytes) (dst src a b : ℕ)
    → IsString m dst a
    → IsString m src b
    → ((x : ℕ) → m' x ≡ moved (dst + a) src (suc b) m x)
    → IsString m' dst (a + b)
joined-IsString m m' dst src a b left right copied = (
  λ i lt. elim (Bool-cases (ltb i a)) [
    | inl t ↦
        let out : is_within (dst + a) (suc b) (dst + i) ≡ false = ground (arith, t) in
        λ e. left.0 i (ground (arith, t)) (sym (copied (dst + i) ∙ rw out refl) ∙ e)
    | inr f ↦
        let here : is_within (dst + a) (suc b) (dst + i) ≡ true = ground (arith, f, lt) in
        let at : src + (dst + i - (dst + a)) ≡ src + (i - a) = omega arith in
        λ e.
          right.0 (i - a) (ground (arith, f, lt)) (sym (copied (dst + i) ∙ rw here (ap m at)) ∙ e)
  ],
  let here : is_within (dst + a) (suc b) (dst + (a + b)) ≡ true = ground arith in
      let at : src + (dst + (a + b) - (dst + a)) ≡ src + b = omega arith in
      copied (dst + (a + b)) ∙ rw here (ap m at) ∙ right.1,
)

-- With fuel for strings of `a` and `b` bytes that do not meet, the room for the result counted,
-- `strcat` ends and returns the destination; a string of `a + b` bytes stands there, the first with
-- the second and its terminator behind it, and no other byte has changed.
pub strcat-IsString :
    (fuel dst src a b : ℕ) (m : Bytes)
    → a < fuel
    → b < fuel
    → (dst + a + b < src) ⊎ (src + b < dst)
    → IsString m dst a
    → IsString m src b
    → (m' : Bytes) × (strcat fuel dst src m ≡ some (dst, m'))
      × IsString m' dst (a + b)
      × ((x : ℕ) → m' x ≡ moved (dst + a) src (suc b) m x)
unfolding strcat
strcat-IsString fuel dst src a b m enough enough' apart left right =
    let copied = λ (x : ℕ). copy_up-moved (suc b) (dst + a) src m x (start apart) in
    (
      copy_up (suc b) (dst + a) src m,
      rw (find_end-IsString a fuel dst m enough left)
          (rw (copy_string-copy_up b fuel (dst + a) src m enough' (room apart) right) refl),
      joined-IsString m (copy_up (suc b) (dst + a) src m) dst src a b left right copied,
      copied,
    )
  where
    start : (dst + a + b < src) ⊎ (src + b < dst) → (dst + a ≤ src) ⊎ (src + suc b ≤ dst + a)
    start (inl e) = inl (omega arith)
    start (inr e) = inr (omega arith)

    room : (dst + a + b < src) ⊎ (src + b < dst) → (dst + a + b < src) ⊎ (src + b < dst + a)
    room (inl e) = inl e
    room (inr e) = inr (omega arith)
