-- ===== src/Vmm/Put.antt =====
-- One entry of a table is stored, in src/kernel/memory/vmm.c.
use mathlib.Core.Path.{subst}
use hos.Base.{
  ℕ, ◌/◌, ◌^◌, ◌<◌, ◌≤◌, ◌≡◌, ◌≢◌, refl, sym, ap, ◌∙◌, ◌⊎◌, inl, inr, true, false, ◌&&◌, ◌==◌,
  arith, Nat-cases,
}
use hos.Pmm.{Pmm, frame_test}
use hos.Pmm.Alloc.{IsReady}
use hos.Vmm.{
  Space, present, size_bit, frame_of, pd_entry, pt_entry, pde_of, table_of, pte_of, store_word,
  store_pte,
}
use hos.Vmm.Translation.{entry_address, translate, pde, IsSpace, IsBelowTables, translate-same}

-- A new state of the frames in which the tables are taken still.
pub record Keeps (s : Space) (pmm : Pmm) : Type 0 where
  pub ready : IsReady pmm
  pub few : pmm.max_frames ≤ 2 ^ 20
  pub root : frame_test pmm s.directory ≡ true
  pub taken :
      (i : ℕ) → i < 1023 → present (pde i s) ≡ 1 → frame_test pmm (frame_of (pde i s)) ≡ true

pub Keeps-self : (s : Space) → IsSpace s → Keeps s s.pmm
Keeps-self s is = record { ready = is.ready; few = is.few; root = is.root; taken = is.taken }

-- The entry of an address is `raw`, and every other page is as it was.
pub record Put (v raw : ℕ) (s s' : Space) : Type 0 where
  pub space : IsSpace s'
  pub root : s'.directory ≡ s.directory
  pub pdes : (i : ℕ) → pde i s' ≡ pde i s
  pub here : (v' : ℕ) → v' / 4096 ≡ v / 4096 → translate v' s' ≡ entry_address v' raw
  pub entry : pte_of v s' ≡ raw
  pub others : (v' : ℕ) → IsBelowTables v' → v' / 4096 ≢ v / 4096 → translate v' s' ≡ translate v' s

pub store_word-elsewhere :
    (f i value a b : ℕ) (m : ℕ → ℕ → ℕ) → (a ≢ f) ⊎ (b ≢ i) → store_word f i value m a b ≡ m a b
unfolding store_word
store_word-elsewhere f i value a b m (inl ne) =
    let off : (a == f) ≡ false = ground (arith, ne) in rw off refl
store_word-elsewhere f i value a b m (inr ne) =
    let off : ((a == f) && (b == i)) ≡ false = ground (arith, ne) in rw off refl

pub store_word-here : (f i value : ℕ) (m : ℕ → ℕ → ℕ) → store_word f i value m f i ≡ value
unfolding store_word
store_word-here f i value m = let on : ((f == f) && (i == i)) ≡ true = ground arith in rw on refl

-- The order of the tables is that of the directory.
pub IsSpace-same :
    (s s' : Space)
    → IsSpace s
    → s'.directory ≡ s.directory
    → ((i : ℕ) → pde i s' ≡ pde i s)
    → Keeps s s'.pmm
    → IsSpace s'
IsSpace-same s s' is root same keeps =
    let there = λ (i : ℕ) (p : present (pde i s') ≡ 1). subst (λ e. present e ≡ 1) (same i) p in
    record {
      ready = keeps.ready;
      few = keeps.few;
      root = rw root keeps.root;
      taken = λ i lt p.
          subst (λ e. frame_test s'.pmm (frame_of e) ≡ true) (sym (same i))
            (keeps.taken i lt (there i p));
      below = λ i lt p e. is.below i lt (there i p) (ap frame_of (sym (same i)) ∙ e ∙ root);
      small = λ i lt. subst (λ e. size_bit e ≡ 0) (sym (same i)) (is.small i lt);
      distinct = λ i j lt lt' ne p q e.
          is.distinct i j lt lt' ne (there i p) (there j q)
            (ap frame_of (sym (same i)) ∙ e ∙ ap frame_of (same j));
    }

-- The address behind an entry that is known.
pub translate-entry :
    (v raw : ℕ) (s : Space)
    → present (pde_of v s) ≡ 1
    → pte_of v s ≡ raw
    → translate v s ≡ entry_address v raw
translate-entry v raw s there entry =
    let on : (present (pde_of v s) == 0) ≡ false = ground (arith, there) in rw on (rw entry refl)

pub store_pte-Put :
    (v raw : ℕ) (pmm : Pmm) (s : Space)
    → IsSpace s
    → IsBelowTables v
    → present (pde_of v s) ≡ 1
    → Keeps s pmm
    → Put v raw s (store_pte v raw pmm s)
unfolding store_pte
store_pte-Put v raw pmm s is low there keeps =
    let t = table_of v s in
    let k = pt_entry v in
    let s' = store_pte v raw pmm s in
    let apart : s.directory ≢ t = λ e. is.below (pd_entry v) (omega arith) there (sym e) in
    let same : (i : ℕ) → store_word t k raw s.memory s.directory i ≡ pde i s =
      λ i. store_word-elsewhere t k raw s.directory i s.memory (inl apart) in
    let entry : store_word t k raw s.memory
          (frame_of (store_word t k raw s.memory s.directory (pd_entry v))) k
        ≡ raw =
      rw (same (pd_entry v)) (store_word-here t k raw s.memory) in
    record {
      space = IsSpace-same s (store_pte v raw pmm s) is refl same keeps;
      root = refl;
      pdes = same;
      here = λ v' page.
          let pd : pd_entry v' ≡ pd_entry v = omega arith in
          let pt : pt_entry v' ≡ k = omega arith in
          translate-entry v' raw (store_pte v raw pmm s) (rw pd (rw (same (pd_entry v)) there))
            (rw pd (rw pt entry));
      entry = entry;
      others = λ v' low' ne.
          translate-same v' s (store_pte v raw pmm s) (same (pd_entry v')) (λ there'.
            let elsewhere : store_word t k raw s.memory (table_of v' s) (pt_entry v')
                ≡ pte_of v' s =
              store_word-elsewhere t k raw (table_of v' s) (pt_entry v') s.memory
                (elim (Nat-cases (pd_entry v') (pd_entry v)) [
                  | inl e ↦ inr (omega arith)
                  | inr apart' ↦ inl (
                      is.distinct (pd_entry v') (pd_entry v) (omega arith) (omega arith) apart'
                        there' there)
                ]) in
            rw (same (pd_entry v')) elsewhere);
    }
