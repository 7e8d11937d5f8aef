-- ===== src/Net/Epoller/Kernel.antt =====
-- What the code relies on of the kernel's `epoll_ctl`: a descriptor is registered at most once, only a
-- registered one can be changed or deleted, and an operation on one leaves the others alone.
use ham.Net.Channel.{Events}
use ham.Net.Epoller.{put, is_some, Ctl, ctl_add, ctl_mod, ctl_del}
use ham.Base.{==-self, ℕ, ◌≡◌, refl, true, false, Option, none, some, ◌==◌}

-- The operation on `fd` succeeds, it leaves `now`, and every other descriptor as it was.
abbrev pub Succeeds {ℓ} :
    {K : Type ℓ} → (K → ℕ → Option Events) → K → ℕ → Option Events → Option K → Type 0
Succeeds registered k fd now none = ⊥
Succeeds registered k fd now (some k') =
    (registered k' fd ≡ now)
    × ((other : ℕ) → (fd == other) ≡ false → registered k' other ≡ registered k other)

pub record EpollKernel (K : Type 0) : Type 0 where
  pub registered : K → ℕ → Option Events
  pub epoll_ctl : Ctl K
  pub add :
      (k : K) (fd : ℕ) (e : Events)
      → registered k fd ≡ none
      → Succeeds registered k fd (some e) (epoll_ctl ctl_add fd e k)
  pub mod_event :
      (k : K) (fd : ℕ) (e : Events)
      → is_some (registered k fd) ≡ true
      → Succeeds registered k fd (some e) (epoll_ctl ctl_mod fd e k)
  pub del :
      (k : K) (fd : ℕ) (e : Events)
      → is_some (registered k fd) ≡ true
      → Succeeds registered k fd none (epoll_ctl ctl_del fd e k)

pub put-same {ℓ} : {A : Type ℓ} (i : ℕ) (a : A) (m : ℕ → A) → put i a m i ≡ a
unfolding put
put-same i a m = rw (==-self i) refl

pub put-other {ℓ} :
    {A : Type ℓ} (i j : ℕ) (a : A) (m : ℕ → A) → (i == j) ≡ false → put i a m j ≡ m j
unfolding put
put-other i j a m e = rw e refl
