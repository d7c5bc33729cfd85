-- ===== src/Strings/Tests.antt =====
-- The functions on strings at a piece of memory with two words.
use hos.Base.{ℕ, ◌≡◌, ◌==◌, if◌then◌else◌, refl, arith, inl, some}
use hos.Strings.{Bytes, memmove, strcat, strncpy}
use hos.Strings.Bytes.{moved, memmove-moved}
use hos.Strings.Terminated.{IsString, strcat-IsString}
use hos.Strings.Bounded.{padded, strncpy-padded}

-- "hi" at 100 and "you" at 200.
abbrev words : Bytes
words x =
    if x == 100
    then 104
    else if x == 101
    then 105
    else if x == 200
    then 121
    else if x == 201
    then 111
    else if x == 202
    then 117
    else 0

hi-IsString : IsString words 100 2
hi-IsString = (λ i lt. ground (arith, lt), refl)

you-IsString : IsString words 200 3
you-IsString = (λ i lt. ground (arith, lt), refl)

memmove-moved_example :
    ((memmove 201 200 3 words).0 ≡ 201)
    × ((memmove 201 200 3 words).1 203 ≡ moved 201 200 3 words 203)
memmove-moved_example = memmove-moved 201 200 3 words 203

strcat-IsString_example :
    (m' : Bytes) × (strcat 10 100 200 words ≡ some (100, m'))
    × IsString m' 100 5
    × ((x : ℕ) → m' x ≡ moved 102 200 4 words x)
strcat-IsString_example =
    strcat-IsString 10 100 200 2 3 words (omega arith) (omega arith) (inl (omega arith)) hi-IsString
      you-IsString

strncpy-padded_example :
    ((strncpy 100 200 8 words).0 ≡ 100)
    × ((strncpy 100 200 8 words).1 105 ≡ padded 100 200 8 3 words 105)
strncpy-padded_example = strncpy-padded 100 200 8 3 words 105 (inl (omega arith)) you-IsString
