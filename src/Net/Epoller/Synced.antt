-- ===== src/Net/Epoller/Synced.antt =====
-- ham/net/Epoller.cc: the channel map, the channels and the kernel, in agreement.
use mathlib.Core.Bool.{false≢true}
use ham.Net.Channel.{dismissed, added, Status, new, Events, Channel}
use ham.Net.Epoller.{is_new, Epoller}
use ham.Net.Epoller.Kernel.{EpollKernel}
use ham.Base.{
  subst, Bool-cases, ℕ, ◌≡◌, refl, sym, ap, ◌∙◌, ◌≢◌, ◌⊎◌, inl, inr, true, false, Option, none,
  some, arith, ◌==◌,
}

-- What the kernel should have of a channel.
abbrev pub wanted : Channel → Option Events
wanted c = of_status c.status
  where
    of_status : Status → Option Events
    of_status added = some c.event
    of_status _ = none

pub added≢new : added ≢ new
added≢new e = false≢true (ap is_new e)

pub dismissed≢new : dismissed ≢ new
dismissed≢new e = false≢true (ap is_new e)

pub ==→≡ : (a b : ℕ) → (a == b) ≡ true → a ≡ b
==→≡ a b h = ground arith

pub e_false : (a b : ℕ) → (a == b) ≡ false → a ≢ b
e_false a b h = ground arith

pub differ : (a b : ℕ) → (a ≢ b) → (a == b) ≡ false
differ a b h = ground arith

-- The map does not give the descriptor to another channel.
abbrev pub Owned : Option ℕ → ℕ → Type 0
Owned m channel = (m ≡ none) ⊎ (m ≡ some channel)

not-Owned : (m : Option ℕ) (channel a : ℕ) → Owned m channel → (channel == a) ≡ false → m ≢ some a
not-Owned m channel a owned e h = elim owned [
  | inl e' ↦ grind (arith, h, e')
  | inr e' ↦ grind (arith, h, e', e)
]

module _ {K : Type 0} (kernel : EpollKernel K) where
  -- What holds of one descriptor: one that is not in the map is not registered, and one that is belongs
  -- to a channel that was added before.
  abbrev pub SyncedAt : Epoller K → ℕ → Option ℕ → Type 0
  SyncedAt p fd none = kernel.registered p.kernel fd ≡ none
  SyncedAt p fd (some channel) =
      ((p.channels channel).fd ≡ fd)
      × ((p.channels channel).status ≢ new)
      × (kernel.registered p.kernel fd ≡ wanted (p.channels channel))

  pub record IsSynced (p : Epoller K) : Type 0 where
    pub mapped : (fd : ℕ) → SyncedAt p fd (p.channel_map fd)
    pub added_once :
        (channel : ℕ)
        → (p.channels channel).status ≢ new
        → p.channel_map (p.channels channel).fd ≡ some channel

  -- The channel became `c'`, the map and the kernel follow, and nothing else changed.
  pub record Changed (p : Epoller K) (channel : ℕ) (c' : Channel) (p' : Epoller K) : Type 0 where
    pub at_channel : p'.channels channel ≡ c'
    pub at_others : (a : ℕ) → (channel == a) ≡ false → p'.channels a ≡ p.channels a
    pub map_at : p'.channel_map c'.fd ≡ some channel
    pub map_others : (j : ℕ) → (c'.fd == j) ≡ false → p'.channel_map j ≡ p.channel_map j
    pub kernel_at : kernel.registered p'.kernel c'.fd ≡ wanted c'
    pub kernel_others :
        (j : ℕ)
        → (c'.fd == j) ≡ false
        → kernel.registered p'.kernel j ≡ kernel.registered p.kernel j

  pub SyncedAt-other :
      (p p' : Epoller K) (j : ℕ) (m : Option ℕ)
      → kernel.registered p'.kernel j ≡ kernel.registered p.kernel j
      → ((a : ℕ) → m ≡ some a → (p.channels a).fd ≡ j → p'.channels a ≡ p.channels a)
      → SyncedAt p j m
      → SyncedAt p' j m
  SyncedAt-other p p' j none e others h = e ∙ h
  SyncedAt-other p p' j (some a) e others h = rw (others a refl h.0) (h.0, h.1, e ∙ h.2)

  pub Changed-mapped :
      (p p' : Epoller K) (channel : ℕ) (c' : Channel)
      → IsSynced p
      → (p.channels channel).fd ≡ c'.fd
      → c'.status ≢ new
      → Changed p channel c' p'
      → (j : ℕ) → SyncedAt p' j (p'.channel_map j)
  Changed-mapped p p' channel c' h same_fd used k j = elim (Bool-cases (c'.fd == j)) [
    | inl e ↦
        subst (λ i. SyncedAt p' i (p'.channel_map i)) (==→≡ c'.fd j e)
          (rw (k.map_at, k.at_channel) (refl, used, k.kernel_at))
    | inr e ↦ rw (k.map_others j e) (
        SyncedAt-other p p' j (p.channel_map j) (k.kernel_others j e)
          (λ a m_eq fd_eq. k.at_others a (
            differ channel a (λ same.
              absurd
                (e_false c'.fd j e (sym same_fd ∙ (ap (λ i. (p.channels i).fd) same ∙ fd_eq))))))
          (h.mapped j))
  ]

  pub Changed-added_once :
      (p p' : Epoller K) (channel : ℕ) (c' : Channel)
      → IsSynced p
      → Owned (p.channel_map c'.fd) channel
      → Changed p channel c' p'
      → (a : ℕ) → (p'.channels a).status ≢ new
      → p'.channel_map (p'.channels a).fd ≡ some a
  Changed-added_once p p' channel c' h owned k a used = elim (Bool-cases (channel == a)) [
    | inl e ↦
        subst (λ i. p'.channel_map (p'.channels i).fd ≡ some i) (==→≡ channel a e)
          (rw k.at_channel k.map_at)
    | inr e ↦
        let same = k.at_others a e in
        let old = h.added_once a (rw same at used) in
        rw same (
          k.map_others (p.channels a).fd (
            differ c'.fd (p.channels a).fd λ at_fd.
              not-Owned (p.channel_map c'.fd) channel a owned e (ap p.channel_map at_fd ∙ old))
          ∙ old)
  ]
