-- ===== src/RingBuffer/Tests.antt =====
-- Runs of a ring buffer of three entries, and its theorems there.
use hos.Base.{ℕ, ◌+◌, ◌≡◌, refl, ◌==◌, if◌then◌else◌, arith, [], ◌∷◌, ◌++◌}
use hos.RingBuffer.{Ring, init_ring, push_front, empty, back}
use hos.RingBuffer.Laws.{IsRing, contents, count, drop_first, push_front-contents}

-- The entry at 2 is the oldest, and the write has gone around.
abbrev turned : Ring ℕ
turned = record { size = 3; read = 2; write = 1; buffer = λ i. 10 + i }

full_test : contents (push_front turned 99) ≡ 10 ∷ 99 ∷ []
unfolding push_front
full_test = refl

abbrev pushed : Ring ℕ
pushed = push_front (init_ring 3 0) 7

back_test : back pushed 0 ≡ 7
unfolding back empty push_front init_ring
back_test = refl

turned-IsRing : IsRing turned
turned-IsRing = (omega arith, omega arith)

push_front-contents_example :
    IsRing (push_front turned 99)
    × (contents (push_front turned 99) ≡ (
        if count turned + 1 == turned.size
        then drop_first (contents turned ++ (99 ∷ []))
        else contents turned ++ (99 ∷ [])))
push_front-contents_example = push_front-contents turned 99 turned-IsRing
