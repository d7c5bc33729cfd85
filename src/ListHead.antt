-- ===== src/ListHead.antt =====
-- The doubly linked rings of include/kernel/list_head.h, on maps from addresses.
pub mod Chain
pub mod Insert
pub mod Remove
pub mod Append
pub mod Size
mod Tests
use hos.Base.{ℕ, zero, suc, ◌+◌, u32, Bool, not, ◌==◌, if◌then◌else◌, store, Option, some, none}

-- `struct list_head` at every address.
pub record Links : Type 0 where
  pub prev : ℕ → ℕ
  pub next : ℕ → ℕ

abbrev pub set_next : ℕ → ℕ → Links → Links
set_next p q s = record s { next = store s.next p q }

abbrev pub set_prev : ℕ → ℕ → Links → Links
set_prev p q s = record s { prev = store s.prev p q }

pub list_head_init : ℕ → Links → Links
list_head_init head s = set_next head head (set_prev head head s)

pub list_head_empty : ℕ → Links → Bool
list_head_empty head s = s.next head == head

pub insert_after : ℕ → ℕ → Links → Links
insert_after new_entry location s =
    let old_next = s.next location in
    set_prev old_next new_entry
      (set_next new_entry old_next (set_prev new_entry location (set_next location new_entry s)))

pub insert_before : ℕ → ℕ → Links → Links
insert_before new_entry location s =
    let old_prev = s.prev location in
    set_prev location new_entry
      (set_next new_entry location (set_prev new_entry old_prev (set_next old_prev new_entry s)))

-- `list_head_remove`
pub remove_entry : ℕ → Links → Links
remove_entry entry s =
    if list_head_empty entry s
    then s
    else (let s1 = set_next (s.prev entry) (s.next entry) s in
        let s2 = set_prev (s1.next entry) (s1.prev entry) s1 in list_head_init entry s2)

pub list_head_pop : ℕ → Links → Option ℕ × Links
list_head_pop head s =
    if list_head_empty head s then (none, s) else (some (s.next head), remove_entry (s.next head) s)

pub list_head_append : ℕ → ℕ → Links → Links
list_head_append main secondary s =
    if list_head_empty main s
    then s
    else if list_head_empty secondary s
    then s
    else (let s1 = set_next (s.prev main) (s.next secondary) s in
        let s2 = set_prev (s1.next secondary) (s1.prev main) s1 in
        let s3 = set_next (s2.prev secondary) main s2 in
        list_head_init secondary (set_prev main (s3.prev secondary) s3))

-- The loop of `list_head_size`, with fuel.
pub size_loop : ℕ → ℕ → ℕ → ℕ → Links → Option ℕ
size_loop zero size it head s = none
size_loop (suc fuel) size it head s =
    let rest = size_loop fuel (u32 (size + 1)) (s.next it) head s in
    if it == head then some size else rest

pub list_head_size : ℕ → ℕ → Links → Option ℕ
list_head_size fuel head s =
    if list_head_empty head s then some 0 else size_loop fuel 0 (s.next head) head s
