-- ===== src/Pmm/Init/Keeps.antt =====
-- What the region functions of pmm.c leave alone: the sizes, the count, a `lowest_available` of 0.
use hos.Base.{
  u32, ℕ, zero, suc, ◌+◌, ◌≡◌, refl, ◌∙◌, Bool, true, false, ◌==◌, if◌then◌else◌, arith, List, [],
  ◌∷◌,
}
use hos.Pmm.{Pmm, frame_set, frame_unset}
use hos.Pmm.Bitmap.{IsWords, frame_set-IsWords, frame_unset-IsWords}
use hos.Pmm.Init.{MmapEntry, unset_frames, set_frames, init_region, deinit_region, init_regions}

-- What the region functions leave alone.
pub record Keeps (p q : Pmm) : Type 0 where
  pub max : q.max_frames ≡ p.max_frames
  pub size : q.frames_bitmap_size ≡ p.frames_bitmap_size
  pub used : q.used_frames ≡ p.used_frames
  pub lowest : p.lowest_available ≡ 0 → q.lowest_available ≡ 0
  pub words : IsWords p → IsWords q

pub Keeps-refl : (p : Pmm) → Keeps p p
Keeps-refl p = record { max = refl; size = refl; used = refl; lowest = λ h. h; words = λ h. h }

pub Keeps-trans : {p q r : Pmm} → Keeps p q → Keeps q r → Keeps p r
Keeps-trans a b = record {
  max = b.max ∙ a.max;
  size = b.size ∙ a.size;
  used = b.used ∙ a.used;
  lowest = λ h. b.lowest (a.lowest h);
  words = λ h. b.words (a.words h);
}

pub Keeps-frame_set : (p : Pmm) (f : ℕ) → Keeps p (frame_set p f)
Keeps-frame_set p f = record {
  max = unfold frame_set in refl;
  size = unfold frame_set in refl;
  used = unfold frame_set in refl;
  lowest = unfold frame_set in λ h. h;
  words = frame_set-IsWords p f;
}

pub Keeps-frame_unset : (p : Pmm) (f : ℕ) → Keeps p (frame_unset p f)
Keeps-frame_unset p f = record {
  max = unfold frame_unset in refl;
  size = unfold frame_unset in refl;
  used = unfold frame_unset in refl;
  lowest = unfold frame_unset in λ h. ground arith;
  words = frame_unset-IsWords p f;
}

pub Keeps-set_frames : (p : Pmm) (start n : ℕ) → Keeps p (set_frames p start n)
unfolding set_frames
Keeps-set_frames p start zero = Keeps-refl p
Keeps-set_frames p start (suc n) =
    Keeps-trans (Keeps-frame_set p start) (Keeps-set_frames (frame_set p start) (u32 (start + 1)) n)

pub Keeps-unset_frames : (p : Pmm) (start n : ℕ) → Keeps p (unset_frames p start n)
unfolding unset_frames
Keeps-unset_frames p start zero = Keeps-refl p
Keeps-unset_frames p start (suc n) =
    Keeps-trans (Keeps-frame_unset p start)
      (Keeps-unset_frames (frame_unset p start) (u32 (start + 1)) n)

pub Keeps-deinit_region : (p : Pmm) (addr length : ℕ) → Keeps p (deinit_region p addr length)
unfolding deinit_region
Keeps-deinit_region p addr length = Keeps-set_frames p _ _

pub Keeps-init_region_if :
    (p : Pmm) (b : Bool) (addr length : ℕ) → Keeps p (if b then init_region p addr length else p)
unfolding init_region
Keeps-init_region_if p true addr length = Keeps-unset_frames p _ _
Keeps-init_region_if p false addr length = Keeps-refl p

pub Keeps-init_regions : (p : Pmm) (es : List MmapEntry) → Keeps p (init_regions p es)
unfolding init_regions
Keeps-init_regions p [] = Keeps-refl p
Keeps-init_regions p (e ∷ es) =
    Keeps-trans (Keeps-init_region_if p (e.kind == 1) (u32 e.addr) (u32 e.len))
      (Keeps-init_regions (if e.kind == 1 then init_region p (u32 e.addr) (u32 e.len) else p) es)
