-- ===== src/Timers/Walk.antt =====
-- The walk over a list of timers that removes them one by one, in src/arch/i386/timer.c.
use hos.Base.{ℕ, ◌≡◌, refl, List, [], ◌∷◌, length, some}
use hos.Timers.{Timer, Tvec, for_each_safe}
use hos.Timers.Members.{Every}

-- The list of a wheel is `xs`, and `J` holds.
-- If each round takes the first timer off the list, puts none into it and keeps `J`, the walk ends
-- with the list empty.
pub for_each_safe-drains :
    (body : Timer → Tvec → Tvec) (tv index : ℕ) (Ok : Timer → Type 0) (J : Tvec → Type 0)
    → ((x : Timer) (rest : List Timer) (w : Tvec)
        → Ok x
        → w.vec tv index ≡ x ∷ rest
        → J w
        → ((body x w).vec tv index ≡ rest) × J (body x w))
    → (xs : List Timer) (w : Tvec) → w.vec tv index ≡ xs
    → Every Ok xs
    → J w
    → (w' : Tvec) × (for_each_safe (length xs) body tv index w ≡ some w')
      × (w'.vec tv index ≡ [])
      × J w'
unfolding for_each_safe
for_each_safe-drains body tv index Ok J step [] w list all j = (w, rw list refl, list, j)
for_each_safe-drains body tv index Ok J step (x ∷ []) w list (ok, all) j =
    let (list', j') = step x [] w ok list j in (body x w, rw list refl, list', j')
for_each_safe-drains body tv index Ok J step (x ∷ y ∷ ys) w list (ok, all) j =
    let (list', j') = step x (y ∷ ys) w ok list j in
    let (w', runs, empty, j'') =
      for_each_safe-drains body tv index Ok J step (y ∷ ys) (body x w) list' all j' in
    (w', rw list runs, empty, j'')
